-- ===== src/Workers/OutboxWorker.antt =====
-- workers/outbox_worker.py, and the publishing side of infrastructure/bus/redis_pubsub.py.
-- Whether Redis accepts a record's message is a parameter, `fails`.
pub mod Backoff
pub mod Loop
pub mod Fate
pub mod Batch
pub mod Outcome
pub mod Publishes
pub mod Rounds
pub mod Retries
pub mod Valid
pub mod GivesUp
pub mod Fleet
use leaf_flow_chat.Prelude.{
  ℕ, ◌+◌, ◌*◌, ◌^◌, min, String, Bool, true, false, Option, none, some, List, [], ◌∷◌, ◌++◌, leb,
  if◌then◌else◌,
}
use leaf_flow_chat.Prelude.Dict.{get, put, string_eq}
use leaf_flow_chat.Domain.{Timestamp, Value, Payload, str}
use leaf_flow_chat.Settings.{Settings}
use leaf_flow_chat.Sql.{Sql}
use leaf_flow_chat.Db.Outbox.{OutboxRecord, fetch_pending, mark_sent, mark_failed}
use leaf_flow_chat.Db.Session.{Action, pure, utc_now, commit, ◌>>=◌, ◌>>◌}

abbrev pub base_delay_seconds : ℕ
base_delay_seconds = 5

abbrev pub max_delay_seconds : ℕ
max_delay_seconds = 300

-- the delay of `_calc_backoff`, in seconds
unfoldable pub delay_seconds : ℕ → ℕ
delay_seconds attempts = min (base_delay_seconds * 2 ^ attempts) max_delay_seconds

-- `timedelta(seconds=…)` in microseconds
abbrev pub seconds : ℕ → ℕ
seconds n = n * 1000000

unfoldable pub calc_backoff : ℕ → Action Timestamp
calc_backoff attempts = do now ← utc_now; pure (now + seconds (delay_seconds attempts))

-- `{**a, **b}`
unfoldable pub merge : Payload → Payload → Payload
merge a [] = a
merge a ((k, v) ∷ b) = merge (put k v a) b

-- What goes out on the channel: the envelope of infrastructure/bus/serializer.py.
pub record Envelope : Type 0 where
  pub channel : String
  pub event : Value
  pub payload : Payload

-- `payload.get("event_type", "unknown")`
abbrev pub or_unknown : Option Value → Value
or_unknown none = str "unknown"
or_unknown (some v) = v

-- `RedisPubSubPublisher.publish` of the payload that the worker builds for a record
unfoldable pub envelope : Settings → OutboxRecord → Envelope
envelope settings r =
    let payload = merge (("event_type", str r.event_type) ∷ []) r.payload in
    record {
      channel = settings.redis_pubsub_channel;
      event = or_unknown (get "event_type" payload);
      payload = payload;
    }

module _ ⦃sql : Sql⦄ (settings : Settings) (fails : OutboxRecord → Bool) where
  -- `attempts >= OUTBOX_MAX_ATTEMPTS`
  abbrev pub is_exhausted : OutboxRecord → Bool
  is_exhausted r = leb settings.outbox_max_attempts r.attempts

  -- One round of the loop: `sent_ids`, and what was published.
  unfoldable pub process_record : OutboxRecord → Action (List ℕ × List Envelope)
  process_record r =
      if is_exhausted r
      then pure ([], [])
      else if fails r
      then (do retry_at ← calc_backoff r.attempts; mark_failed r.id retry_at; pure ([], []))
      else pure (r.id ∷ [], envelope settings r ∷ [])

  unfoldable pub process_records : List OutboxRecord → Action (List ℕ × List Envelope)
  process_records [] = pure ([], [])
  process_records (r ∷ rest) = do
    (ids, out) ← process_record r
    (more_ids, more) ← process_records rest
    pure (ids ++ more_ids, out ++ more)

  -- `if not batch: return`
  unfoldable pub process_fetched : List OutboxRecord → Action (List Envelope)
  process_fetched [] = pure []
  process_fetched (r ∷ rest) = do
    (sent_ids, published) ← process_records (r ∷ rest)
    mark_sent sent_ids
    commit
    pure published

  unfoldable pub process_batch : Action (List Envelope)
  process_batch = do batch ← fetch_pending settings.outbox_batch_size; process_fetched batch
