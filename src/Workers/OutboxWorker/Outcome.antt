-- ===== src/Workers/OutboxWorker/Outcome.antt =====
-- The outbox after one run of `_process_batch`, row by row, and what was published.
use leaf_flow_chat.Prelude.{
  ℕ, ◌+◌, ◌≡◌, ◌≤◌, refl, sym, ap, ◌∙◌, subst, inl, inr, Bool, true, false, not, ◌&&◌, some, List,
  [], ◌∷◌, map, arith, ltb, ◌==◌, if◌then◌else◌, any, All, count_p, Bool-cases, count_p-take-le,
  All-count_p, any-count_p, count_p_mono, count_p_split,
}
use leaf_flow_chat.Settings.{Settings}
use leaf_flow_chat.Sql.{Sql, unordered}
use leaf_flow_chat.Sql.Laws.{fetch, fetch-counted, same, same-eq}
use leaf_flow_chat.Db.Models.{Db, OutboxMessageModel, OutboxMessageModel-discrete}
use leaf_flow_chat.Db.Outbox.{
  OutboxRecord, to_record, due_rows, is_waiting, is_fetchable, oldest_first, mark_processing,
  mark_sent, fetch_pending,
}
use leaf_flow_chat.Db.Session.{Session, ◌>>=◌}
use leaf_flow_chat.Workers.OutboxWorker.{process_records, process_fetched, process_batch}
use leaf_flow_chat.Workers.OutboxWorker.Loop.{
  Shows, is_row, is_record, sent_ids, process_records-apart,
}
use leaf_flow_chat.Workers.OutboxWorker.Batch.{
  processing, settle, mark_processing_returns, mark_processing-Shows, mark_sent-Shows,
  process_fetched-cons, process_fetched-Shows, All-records, count_p-records,
}

module _ ⦃sql : Sql⦄ (settings : Settings) (fails : OutboxRecord → Bool) where
  any-sent_ids_apart :
      (i : ℕ) (rs : List OutboxRecord)
      → count_p (is_record i) rs ≡ 0
      → any (λ j. j == i) (sent_ids settings fails rs) ≡ false
  any-sent_ids_apart i [] h = refl
  any-sent_ids_apart i (r ∷ rest) h = ground (arith, any-sent_ids_apart i rest)

  -- the rows that the run takes up
  abbrev pub batch_rows : Session → List OutboxMessageModel
  batch_rows s =
      due_rows settings.outbox_batch_size (s.clock s.ticks) (record s { ticks = s.ticks + 1 })

  pub process_batch_run :
      (s : Session)
      → process_batch settings fails s
        ≡ process_fetched settings fails
            (map to_record (batch_rows s))
            (mark_processing (batch_rows s) (record s { ticks = s.ticks + 1 })).1
  unfolding process_batch fetch_pending ◌>>=◌
  process_batch_run s =
      ground (arith, mark_processing_returns (batch_rows s) (record s { ticks = s.ticks + 1 }))

  module _ (s : Session) (x : OutboxMessageModel)
      (once : count_p (is_row x.id) s.working.outbox ≤ 1)
      (row : fetch (is_row x.id) unordered s.working.outbox ≡ some x) where
    abbrev pub start : Session
    start = record s { ticks = s.ticks + 1 }

    start-Shows : Shows s x.id x start
    start-Shows = record { once = once; row = row; clock = refl; server_now = refl }

    pub rows_once : count_p (is_row x.id) (batch_rows s) ≤ 1
    rows_once = omega (
      arith,
      once,
      count_p-take-le (is_row x.id) settings.outbox_batch_size
          (sql.select (is_fetchable s.locked (s.clock s.ticks)) oldest_first s.working.outbox),
      sql.count_p-select (is_row x.id) (is_fetchable s.locked (s.clock s.ticks)) oldest_first
          s.working.outbox,
      count_p_mono (λ r. is_fetchable s.locked (s.clock s.ticks) r && is_row x.id r) (is_row x.id)
          s.working.outbox (λ r h. ground arith),
    )

    abbrev pub stranger : OutboxMessageModel → Bool
    stranger y = is_row x.id y && not (same OutboxMessageModel-discrete x y)

    pub no_stranger : count_p stranger (batch_rows s) ≡ 0
    no_stranger = omega (
      arith,
      once,
      fetch-counted OutboxMessageModel-discrete (is_row x.id) unordered s.working.outbox x row,
      count_p_split (is_row x.id) (same OutboxMessageModel-discrete x) s.working.outbox,
      count_p-take-le stranger settings.outbox_batch_size
          (sql.select (is_fetchable s.locked (s.clock s.ticks)) oldest_first s.working.outbox),
      sql.count_p-select stranger (is_fetchable s.locked (s.clock s.ticks)) oldest_first
          s.working.outbox,
      count_p_mono (λ r. is_fetchable s.locked (s.clock s.ticks) r && stranger r) stranger
          s.working.outbox (λ r h. ground arith),
    )

    pub rows_taken :
        (rows : List OutboxMessageModel)
        → count_p (is_row x.id) rows ≡ 1
        → All (λ y. stranger y ≡ false) rows
        → let s' =
            (process_fetched settings fails
              (map to_record rows)
              (mark_processing rows start).1).1 in
          (n : ℕ) × (fetch (is_row x.id) unordered s'.committed.outbox
            ≡ some (settle settings fails s n x))
    rows_taken [] one only = absurd (omega arith)
    rows_taken (y ∷ rows) one only =
        let (n, shown) =
          process_fetched-Shows settings fails s x.id x (to_record y) (map to_record rows)
            (mark_processing (y ∷ rows) start).1 refl (All-records x.id x (y ∷ rows) only)
            (count_p-records x.id (y ∷ rows) ∙ one)
            (subst
              (λ b.
                Shows s x.id (if b then processing s.server_now x else x)
                  (mark_processing (y ∷ rows) start).1)
              (any-count_p (is_row x.id) (y ∷ rows) ∙ ap (ltb 0) one)
              (mark_processing-Shows s x.id x (y ∷ rows) start refl start-Shows)) in
        (
          n,
          rw
              (process_fetched-cons settings fails (to_record y) (map to_record rows)
                (mark_processing (y ∷ rows) start).1)
              shown.row,
        )

    pub rows_left :
        (rows : List OutboxMessageModel)
        → s.committed ≡ s.working
        → count_p (is_row x.id) rows ≡ 0
        → let s' =
            (process_fetched settings fails
              (map to_record rows)
              (mark_processing rows start).1).1 in
          fetch (is_row x.id) unordered s'.committed.outbox ≡ some x
    rows_left [] begun apart =
        unfold process_fetched mark_processing ◌>>=◌ in
        subst (λ (d : Db). fetch (is_row x.id) unordered d.outbox ≡ some x) (sym begun) row
    rows_left (y ∷ rows) begun apart =
        let rs : List OutboxRecord = map to_record (y ∷ rows) in
        let marked : Session = (mark_processing (y ∷ rows) start).1 in
        let s' : Session = (process_records settings fails rs marked).1 in
        let none_here : count_p (is_record x.id) rs ≡ 0 = count_p-records x.id (y ∷ rows) ∙ apart in
        rw (process_fetched-cons settings fails (to_record y) (map to_record rows) marked) (
          (subst
            (λ b.
              Shows s x.id
                (if b then record x { status = "sent"; updated_at = s.server_now } else x)
                (mark_sent (sent_ids settings fails rs) s').1)
            (any-sent_ids_apart x.id rs none_here)
            (mark_sent-Shows s x.id x (sent_ids settings fails rs) s' refl (
              process_records-apart settings fails s x.id x refl rs marked none_here (
                subst (λ b. Shows s x.id (if b then processing s.server_now x else x) marked)
                  (any-count_p (is_row x.id) (y ∷ rows) ∙ ap (ltb 0) apart)
                  (mark_processing-Shows s x.id x (y ∷ rows) start refl start-Shows))))).row)

  -- Take a session that begins (nothing uncommitted) and a row with an id of its own. If the run
  -- does not fetch the row, the committed row is as it was. If it does, the committed row is
  -- `processing` where its attempts were used up, `failed` with one attempt more and a retry after
  -- the backoff where publishing failed, and `sent` with its attempts unchanged otherwise.
  pub process_batch_settles :
      (s : Session) (x : OutboxMessageModel)
      → s.committed ≡ s.working
      → count_p (is_row x.id) s.working.outbox ≤ 1
      → fetch (is_row x.id) unordered s.working.outbox ≡ some x
      → let s' = (process_batch settings fails s).1 in
        (any (is_row x.id) (batch_rows s) ≡ false
          → fetch (is_row x.id) unordered s'.committed.outbox ≡ some x)
        × (any (is_row x.id) (batch_rows s) ≡ true
            → (n : ℕ) × (fetch (is_row x.id) unordered s'.committed.outbox
                ≡ some (settle settings fails s n x)))
  process_batch_settles s x begun once row = rw (process_batch_run s) (
    λ e.
        rows_left s x once row (batch_rows s) begun
          (ground (arith, any-count_p (is_row x.id) (batch_rows s))),
    λ e.
        rows_taken s x once row (batch_rows s)
          (ground (arith, any-count_p (is_row x.id) (batch_rows s), rows_once s x once row))
          (All-count_p (stranger s x once row) (batch_rows s) (no_stranger s x once row)),
  )

  -- A row that waits for nothing is fetched by no run.
  pub process_batch_passes :
      (s : Session) (x : OutboxMessageModel)
      → s.committed ≡ s.working
      → count_p (is_row x.id) s.working.outbox ≤ 1
      → fetch (is_row x.id) unordered s.working.outbox ≡ some x
      → is_waiting x.status ≡ false
      → fetch (is_row x.id) unordered (process_batch settings fails s).1.committed.outbox ≡ some x
  process_batch_passes s x begun once row waits_not = (process_batch_settles s x begun once row).0 (
      ground (
        arith,
        any-count_p (is_row x.id) (batch_rows s),
        count_p-take-le (is_row x.id) settings.outbox_batch_size
            (sql.select (is_fetchable s.locked (s.clock s.ticks)) oldest_first s.working.outbox),
        sql.count_p-select (is_row x.id) (is_fetchable s.locked (s.clock s.ticks)) oldest_first
            s.working.outbox,
        count_p_mono (λ r. is_fetchable s.locked (s.clock s.ticks) r && is_row x.id r)
            (λ r. is_row x.id r && not (same OutboxMessageModel-discrete x r)) s.working.outbox
            (λ r h. other_row r h),
        fetch-counted OutboxMessageModel-discrete (is_row x.id) unordered s.working.outbox x row,
        count_p_split (is_row x.id) (same OutboxMessageModel-discrete x) s.working.outbox,
      ))
    where
      other_row :
          (r : OutboxMessageModel)
          → (is_fetchable s.locked (s.clock s.ticks) r && is_row x.id r) ≡ true
          → (is_row x.id r && not (same OutboxMessageModel-discrete x r)) ≡ true
      other_row r h = elim (Bool-cases (same OutboxMessageModel-discrete x r)) [
        | inl e ↦ absurd (
            ground (
              arith,
              subst (λ (y : OutboxMessageModel). is_waiting y.status ≡ false)
                  (same-eq OutboxMessageModel-discrete x r e) waits_not,
            ))
        | inr e ↦ ground arith
      ]

  -- A row that is committed as `processing` (the end of one with its attempts used up) is fetched
  -- by no later run: it is neither sent nor retried, and stays as it is.
  pub process_batch_strands :
      (s : Session) (x : OutboxMessageModel)
      → s.committed ≡ s.working
      → count_p (is_row x.id) s.working.outbox ≤ 1
      → fetch (is_row x.id) unordered s.working.outbox ≡ some x
      → x.status ≡ "processing"
      → fetch (is_row x.id) unordered (process_batch settings fails s).1.committed.outbox ≡ some x
  process_batch_strands s x begun once row stuck =
      process_batch_passes s x begun once row (rw stuck refl)
