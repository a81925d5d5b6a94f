-- ===== src/Workers/OutboxWorker/Loop.antt =====
-- The loop of `_process_batch`, as it shows in one row of the outbox.
use leaf_flow_chat.Prelude.{
  ℕ, ◌+◌, ◌≡◌, ◌≤◌, refl, ap, subst, inl, inr, Bool, true, false, not, ◌&&◌, some, List, [], ◌∷◌,
  ◌++◌, arith, ◌==◌, if◌then◌else◌, count_p, Bool-cases,
}
use leaf_flow_chat.Domain.{Timestamp}
use leaf_flow_chat.Errors.{ok}
use leaf_flow_chat.Settings.{Settings}
use leaf_flow_chat.Sql.{Sql, unordered}
use leaf_flow_chat.Sql.Laws.{fetch, fetch-update_row, count_p-update_same}
use leaf_flow_chat.Db.Models.{OutboxMessageModel, OutboxMessageModel-discrete}
use leaf_flow_chat.Db.Outbox.{OutboxRecord, has_id, update_outbox, mark_failed}
use leaf_flow_chat.Db.Session.{Session, ◌>>=◌}
use leaf_flow_chat.Workers.OutboxWorker.{
  Envelope, envelope, seconds, delay_seconds, calc_backoff, is_exhausted, process_record,
  process_records,
}

abbrev pub is_row : ℕ → OutboxMessageModel → Bool
is_row i x = x.id == i

abbrev pub is_record : ℕ → OutboxRecord → Bool
is_record i r = r.id == i

-- In a session that began as `base`, `x` is the one row with the id `i`.
pub record Shows ⦃sql : Sql⦄ (base : Session) (i : ℕ) (x : OutboxMessageModel) (s : Session)
    : Type 0 where
  pub once : count_p (is_row i) s.working.outbox ≤ 1
  pub row : fetch (is_row i) unordered s.working.outbox ≡ some x
  pub clock : s.clock ≡ base.clock
  pub server_now : s.server_now ≡ base.server_now

module _ ⦃sql : Sql⦄ where
  -- An UPDATE by ids, as one row shows it.
  pub update_outbox-Shows :
      (base : Session) (i : ℕ) (x : OutboxMessageModel) (s : Session) (ids : List ℕ)
      (values : OutboxMessageModel → OutboxMessageModel)
      → ((y : OutboxMessageModel) → (values y).id ≡ y.id)
      → Shows base i x s
      → Shows base i
          (if has_id ids x then record (values x) { updated_at = base.server_now } else x)
          (update_outbox ids values s).1
  unfolding update_outbox
  update_outbox-Shows base i x s ids values keeps h = record {
    once = omega (
      arith,
      h.once,
      count_p-update_same (is_row i) (has_id ids)
          (λ y. record (values y) { updated_at = s.server_now }) s.working.outbox
          (λ y q. ground (arith, keeps y)),
    );
    row =
        subst
          (λ u.
            fetch (is_row i) unordered (
              sql.update (has_id ids) (λ y. record (values y) { updated_at = s.server_now })
                s.working.outbox)
            ≡ some (if has_id ids x then record (values x) { updated_at = u } else x))
          h.server_now
          (fetch-update_row OutboxMessageModel-discrete (is_row i) (has_id ids)
            (λ y. record (values y) { updated_at = s.server_now }) unordered s.working.outbox x
            h.once (λ y. ground (arith, keeps y)) h.row);
    clock = h.clock;
    server_now = h.server_now;
  }

  module _ (settings : Settings) (fails : OutboxRecord → Bool) where
    abbrev pub exhausted : OutboxRecord → Bool
    exhausted r = is_exhausted settings fails r

    abbrev pub sent_of : OutboxRecord → List ℕ
    sent_of r = if exhausted r then [] else if fails r then [] else r.id ∷ []

    abbrev pub published_of : OutboxRecord → List Envelope
    published_of r = if exhausted r then [] else if fails r then [] else envelope settings r ∷ []

    abbrev pub sent_ids : List OutboxRecord → List ℕ
    sent_ids [] = []
    sent_ids (r ∷ rest) = sent_of r ++ sent_ids rest

    abbrev pub published : List OutboxRecord → List Envelope
    published [] = []
    published (r ∷ rest) = published_of r ++ published rest

    process_record_returns :
        (r : OutboxRecord) (s : Session)
        → (process_record settings fails r s).0 ≡ ok (sent_of r, published_of r)
    unfolding process_record calc_backoff mark_failed update_outbox ◌>>=◌
    process_record_returns r s = ground arith

    pub process_records_returns :
        (rs : List OutboxRecord) (s : Session)
        → (process_records settings fails rs s).0 ≡ ok (sent_ids rs, published rs)
    unfolding process_records ◌>>=◌
    process_records_returns [] s = refl
    process_records_returns (r ∷ rest) s = ground (
      arith,
      process_record_returns r s,
      process_records_returns rest (process_record settings fails r s).1,
    )

    pub process_records-cons :
        (r : OutboxRecord) (rest : List OutboxRecord) (s : Session)
        → (process_records settings fails (r ∷ rest) s).1
          ≡ (process_records settings fails rest (process_record settings fails r s).1).1
    unfolding process_records ◌>>=◌
    process_records-cons r rest s = ground (
      arith,
      process_record_returns r s,
      process_records_returns rest (process_record settings fails r s).1,
    )

    -- a record that is tried and whose publication fails
    abbrev pub retried : OutboxRecord → Bool
    retried r = not (exhausted r) && fails r

    abbrev pub failed_row : Timestamp → Timestamp → OutboxMessageModel → OutboxMessageModel
    failed_row retry_at now x = record x {
      status = "failed";
      attempts = x.attempts + 1;
      next_retry_at = some retry_at;
      updated_at = now;
    }

    abbrev pub ticked : Session → Session
    ticked s = record s { ticks = s.ticks + 1 }

    abbrev pub retry_at : OutboxRecord → Session → Timestamp
    retry_at r s = s.clock s.ticks + seconds (delay_seconds r.attempts)

    abbrev pub mark : Timestamp → OutboxMessageModel → OutboxMessageModel
    mark at y = record y { status = "failed"; attempts = y.attempts + 1; next_retry_at = some at }

    pub process_record-skips :
        (r : OutboxRecord) (s : Session)
        → retried r ≡ false
        → (process_record settings fails r s).1 ≡ s
    unfolding process_record ◌>>=◌
    process_record-skips r s e = ground arith

    pub process_record-marks :
        (r : OutboxRecord) (s : Session)
        → retried r ≡ true
        → (process_record settings fails r s).1
          ≡ (update_outbox (r.id ∷ []) (mark (retry_at r s)) (ticked s)).1
    unfolding process_record calc_backoff mark_failed update_outbox ◌>>=◌
    process_record-marks r s e = ground arith

    module _ (base : Session) (i : ℕ) (x : OutboxMessageModel) (here : x.id ≡ i) where
      ticked-Shows : (s : Session) → Shows base i x s → Shows base i x (ticked s)
      ticked-Shows s h = record {
        once = h.once;
        row = h.row;
        clock = h.clock;
        server_now = h.server_now;
      }

      -- A round for another record, or one that does not fail, leaves the row alone.
      pub process_record-apart :
          (r : OutboxRecord) (s : Session)
          → (is_record i r && retried r) ≡ false
          → Shows base i x s
          → Shows base i x (process_record settings fails r s).1
      process_record-apart r s apart h = elim (Bool-cases (retried r)) [
        | inl e ↦ rw (process_record-marks r s e) (
            subst
              (λ y. Shows base i y (update_outbox (r.id ∷ []) (mark (retry_at r s)) (ticked s)).1)
              (ground arith)
              (update_outbox-Shows base i x (ticked s) (r.id ∷ []) (mark (retry_at r s)) (λ y. refl)
                (ticked-Shows s h)))
        | inr e ↦ rw (process_record-skips r s e) h
      ]

      -- A round that fails for this record marks its row.
      pub process_record-failed :
          (r : OutboxRecord) (s : Session)
          → (is_record i r && retried r) ≡ true
          → Shows base i x s
          → (n : ℕ) × Shows base i
              (failed_row (base.clock n + seconds (delay_seconds r.attempts)) base.server_now x)
              (process_record settings fails r s).1
      process_record-failed r s tried h = (
        s.ticks,
        rw (process_record-marks r s (ground arith)) (
            subst
              (λ y. Shows base i y (update_outbox (r.id ∷ []) (mark (retry_at r s)) (ticked s)).1)
              (ground (arith, ap (λ (f : ℕ → Timestamp). f s.ticks) h.clock))
              (update_outbox-Shows base i x (ticked s) (r.id ∷ []) (mark (retry_at r s)) (λ y. refl)
                (ticked-Shows s h))),
      )

      -- The loop leaves alone a row that none of its records is for.
      pub process_records-apart :
          (rs : List OutboxRecord) (s : Session)
          → count_p (is_record i) rs ≡ 0
          → Shows base i x s
          → Shows base i x (process_records settings fails rs s).1
      process_records-apart [] s none_here h = unfold process_records ◌>>=◌ in h
      process_records-apart (r ∷ rest) s none_here h = rw (process_records-cons r rest s) (
          process_records-apart rest (process_record settings fails r s).1 (ground arith)
            (process_record-apart r s (ground arith) h))
