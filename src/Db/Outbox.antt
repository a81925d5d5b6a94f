-- ===== src/Db/Outbox.antt =====
-- infrastructure/db/repositories/outbox.py, and `OutboxRecord` of application/repositories/outbox.py
use leaf_flow_chat.Prelude.{
  ℕ, ◌+◌, String, Bool, true, not, ◌&&◌, ◌||◌, Option, none, some, List, [], ◌∷◌, map, ◌==◌, leb,
  str_eq, take, any,
}
use leaf_flow_chat.Domain.{Timestamp, Payload}
use leaf_flow_chat.Sql.{Sql}
use leaf_flow_chat.Db.Models.{OutboxMessageModel}
use leaf_flow_chat.Db.Session.{Action, Session, pure, utc_now, ◌>>=◌, ◌>>◌}
use leaf_flow_chat.Errors.{ok}

pub record OutboxRecord : Type 0 where
  pub id : ℕ
  pub event_type : String
  pub payload : Payload
  pub attempts : ℕ

-- `next_retry_at IS NULL OR next_retry_at <= now`
abbrev pub is_due : Timestamp → Option Timestamp → Bool
is_due now none = true
is_due now (some t) = leb t now

-- `status IN ('pending', 'failed')`
abbrev pub is_waiting : String → Bool
is_waiting status = str_eq status "pending" || str_eq status "failed"

-- the WHERE of `fetch_pending`, and SKIP LOCKED
abbrev pub is_fetchable : (ℕ → Bool) → Timestamp → OutboxMessageModel → Bool
is_fetchable locked now r = is_waiting r.status && is_due now r.next_retry_at && not (locked r.id)

-- `created_at.asc()`
abbrev pub oldest_first : OutboxMessageModel → OutboxMessageModel → Bool
oldest_first a b = leb a.created_at b.created_at

abbrev pub has_id : List ℕ → OutboxMessageModel → Bool
has_id ids r = any (λ i. i == r.id) ids

abbrev pub to_record : OutboxMessageModel → OutboxRecord
to_record r = record {
  id = r.id;
  event_type = r.event_type;
  payload = r.payload;
  attempts = r.attempts;
}

module _ ⦃sql : Sql⦄ where
  -- the new row, with the columns' defaults
  unfoldable pub add : String → Payload → Action (Unit {0})
  add event_type payload s = (
    ok tt,
    record s {
      outbox_seq = s.outbox_seq + 1;
      working = record s.working {
        outbox =
            sql.insert
              (record {
                id = s.outbox_seq;
                event_type = event_type;
                payload = payload;
                status = "pending";
                attempts = 0;
                next_retry_at = none;
                created_at = s.server_now;
                updated_at = s.server_now;
              })
              s.working.outbox;
      };
    },
  )

  -- UPDATE of the rows with one of these ids; `onupdate` sets `updated_at`
  unfoldable pub update_outbox :
      List ℕ → (OutboxMessageModel → OutboxMessageModel) → Action (Unit {0})
  update_outbox ids values s = (
    ok tt,
    record s {
      working = record s.working {
        outbox =
            sql.update (has_id ids) (λ r. record (values r) { updated_at = s.server_now })
              s.working.outbox;
      };
    },
  )

  abbrev pub due_rows : ℕ → Timestamp → Session → List OutboxMessageModel
  due_rows batch_size now s =
      take batch_size (sql.select (is_fetchable s.locked now) oldest_first s.working.outbox)

  -- `if rows:` mark them as processing
  unfoldable pub mark_processing : List OutboxMessageModel → Action (Unit {0})
  mark_processing [] = pure tt
  mark_processing (r ∷ rows) =
      update_outbox (map (λ x. x.id) (r ∷ rows)) (λ x. record x { status = "processing" })

  unfoldable pub fetch_pending : ℕ → Action (List OutboxRecord)
  fetch_pending batch_size = do
    now ← utc_now
    rows ← (λ s. (ok (due_rows batch_size now s), s))
    mark_processing rows
    pure (map to_record rows)

  unfoldable pub mark_sent : List ℕ → Action (Unit {0})
  mark_sent [] = pure tt
  mark_sent (i ∷ ids) = update_outbox (i ∷ ids) (λ r. record r { status = "sent" })

  unfoldable pub mark_failed : ℕ → Timestamp → Action (Unit {0})
  mark_failed record_id next_retry_at = update_outbox (record_id ∷ []) (λ r. record r {
    status = "failed";
    attempts = r.attempts + 1;
    next_retry_at = some next_retry_at;
  })
