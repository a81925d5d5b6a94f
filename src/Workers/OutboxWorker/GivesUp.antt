-- ===== src/Workers/OutboxWorker/GivesUp.antt =====
-- A row that Redis keeps refusing is given up.
use leaf_flow_chat.Prelude.{
  ℕ, ◌+◌, ◌≡◌, ◌≤◌, ◌<◌, refl, sym, ap, ◌∙◌, subst, inl, inr, Bool, true, false, Option, none, some,
  List, [], ◌∷◌, arith, All, if◌then◌else◌, count_p, count_p_mono, Bool-cases, length, ◌==◌,
}
use leaf_flow_chat.Domain.{Timestamp}
use leaf_flow_chat.Settings.{Settings}
use leaf_flow_chat.Sql.{Sql, unordered}
use leaf_flow_chat.Sql.Laws.{fetch}
use leaf_flow_chat.Db.Models.{OutboxMessageModel}
use leaf_flow_chat.Db.Outbox.{OutboxRecord, to_record, is_waiting, is_due, is_fetchable}
use leaf_flow_chat.Db.Session.{Session, in_session, rollback}
use leaf_flow_chat.Workers.OutboxWorker.{seconds, delay_seconds, max_delay_seconds}
use leaf_flow_chat.Workers.OutboxWorker.Backoff.{delay_seconds_doubles}
use leaf_flow_chat.Workers.OutboxWorker.Loop.{is_row, exhausted, failed_row}
use leaf_flow_chat.Workers.OutboxWorker.Batch.{settle, processing}
use leaf_flow_chat.Workers.OutboxWorker.Outcome.{process_batch_settles}
use leaf_flow_chat.Workers.OutboxWorker.Publishes.{due-fetched}
use leaf_flow_chat.Workers.OutboxWorker.Rounds.{Round, run_once, run_worker}
use leaf_flow_chat.Workers.OutboxWorker.Retries.{IsOnly, begun, run_once-count, retries_end}

-- From a time on, each round begins at least the longest delay after the clock readings of the one
-- before it.
abbrev pub IsSpaced : Timestamp → List Round → Type 0
IsSpaced t [] = Unit
IsSpaced t (r ∷ rest) =
    (t ≤ r.clock 0)
    × (next : Timestamp) × ((n : ℕ) → r.clock n + seconds max_delay_seconds ≤ next)
    × IsSpaced next rest

is_due_mono :
    (t u : Timestamp) (o : Option Timestamp) → t ≤ u → is_due t o ≡ true → is_due u o ≡ true
is_due_mono t u none h due = refl
is_due_mono t u (some v) h due = ground arith

module _ ⦃sql : Sql⦄ (settings : Settings) where
  settle-refused :
      (fails : OutboxRecord → Bool) (s : Session) (n : ℕ) (x : OutboxMessageModel)
      → fails (to_record x) ≡ true
      → settle settings fails s n x ≡ (
          if exhausted settings fails (to_record x)
          then processing s.server_now x
          else failed_row settings fails
              (s.clock n + seconds (delay_seconds x.attempts))
              s.server_now
              x)
  settle-refused fails s n x bad = rw bad refl

  -- A round that refuses everything takes a row that is due one step on.
  refused_round :
      (r : Round) (s : Session) (x : OutboxMessageModel)
      → IsOnly settings x s
      → is_waiting x.status ≡ true
      → is_due (r.clock 0) x.next_retry_at ≡ true
      → r.locked x.id ≡ false
      → r.fails (to_record x) ≡ true
      → count_p (λ _. true) s.committed.outbox ≤ settings.outbox_batch_size
      → (n : ℕ) × (fetch (is_row x.id) unordered (run_once settings r s).1.committed.outbox
          ≡ some (
              if exhausted settings r.fails (to_record x)
              then processing r.server_now x
              else failed_row settings r.fails
                  (r.clock n + seconds (delay_seconds x.attempts))
                  r.server_now
                  x))
  unfolding in_session rollback
  refused_round r s x only waits due free bad fits =
      let there =
        due-fetched settings r.fails (begun settings r s) x only.row (ground (arith, free)) (
          omega (
            arith,
            fits,
            count_p_mono (is_fetchable r.locked (r.clock 0)) (λ _. true) s.committed.outbox
                (λ y h. refl),
          )) in
      let (n, found) =
        (process_batch_settles settings r.fails (begun settings r s) x refl only.once only.row).1
          there in
      (n, found ∙ ap some (settle-refused r.fails (begun settings r s) n x bad))

  -- A row is due, has attempts left and an id of its own; the outbox fits into one batch; runs of
  -- the worker follow each other at the longest delay, in each of which nobody holds the row and
  -- Redis refuses its event. After more runs than the row has attempts left, it is `processing` with
  -- its attempts used up.
  pub gives_up :
      (rounds : List Round) (t : Timestamp) (s : Session) (x : OutboxMessageModel)
      → count_p (is_row x.id) s.committed.outbox ≤ 1
      → fetch (is_row x.id) unordered s.committed.outbox ≡ some x
      → is_waiting x.status ≡ true
      → is_due t x.next_retry_at ≡ true
      → x.attempts ≤ settings.outbox_max_attempts
      → count_p (λ _. true) s.committed.outbox ≤ settings.outbox_batch_size
      → IsSpaced t rounds
      → All (λ r. r.locked x.id ≡ false) rounds
      → All (λ r. (q : OutboxRecord) → q.id ≡ x.id → r.fails q ≡ true) rounds
      → settings.outbox_max_attempts < x.attempts + length rounds
      → (y : OutboxMessageModel) × (fetch
            (is_row x.id)
            unordered
            (run_worker settings rounds s).1.committed.outbox
          ≡ some y)
        × (y.status ≡ "processing")
        × (y.attempts ≡ settings.outbox_max_attempts)
  unfolding run_worker
  gives_up [] t s x once row waits due left fits spaced free bad many =
      absurd (omega (arith, left, many))
  gives_up (r ∷ rest) t s x once row waits due left fits (starts, u, pause, spaced) free bad many =
      let s' = (run_once settings r s).1 in
      let (n, found) =
        refused_round r s x (record { once = once; row = row }) waits
          (is_due_mono t (r.clock 0) x.next_retry_at starts due) free.0 (bad.0 (to_record x) refl)
          fits in
      let once' : count_p (is_row x.id) s'.committed.outbox ≤ 1 =
        subst (λ k. k ≤ 1) (sym (run_once-count settings r s (λ j. j == x.id))) once in
      let fits' : count_p (λ _. true) s'.committed.outbox ≤ settings.outbox_batch_size =
        subst (λ k. k ≤ settings.outbox_batch_size) (sym (run_once-count settings r s (λ j. true)))
          fits in
      elim (Bool-cases (exhausted settings r.fails (to_record x))) [
        | inl e ↦
            let now : OutboxMessageModel = processing r.server_now x in
            let (y, there, more, less, same) = retries_end settings rest s' now once' (
              found
              ∙ ap
                  (λ b. some (
                    if b
                    then now
                    else failed_row settings r.fails
                        (r.clock n + seconds (delay_seconds x.attempts)) r.server_now x))
                  e) in
            (
              y,
              there,
              ap (λ (z : OutboxMessageModel). z.status) (same refl),
              ground (arith, e, more, less left),
            )
        | inr e ↦
            let later : OutboxMessageModel =
              failed_row settings r.fails (r.clock n + seconds (delay_seconds x.attempts))
                r.server_now x in
            gives_up rest u s' later once'
              (found ∙ ap (λ b. some (if b then processing r.server_now x else later)) e) refl
              (ground (arith, pause n, (delay_seconds_doubles x.attempts).2)) (ground (arith, e))
              fits' spaced free.1 bad.1 (omega (arith, many))
      ]
