-- ===== src/Workers/OutboxWorker/Retries.antt =====
-- How often the worker tries a row, over any number of runs.
use leaf_flow_chat.Prelude.{
  ℕ, ◌+◌, ◌≡◌, ◌≤◌, refl, sym, ap, ◌∙◌, subst, inl, inr, Bool, true, false, some, List, [], ◌∷◌,
  arith, any, count_p, Bool-cases, ◌==◌,
}
use leaf_flow_chat.Settings.{Settings}
use leaf_flow_chat.Sql.{Sql, unordered}
use leaf_flow_chat.Sql.Laws.{fetch}
use leaf_flow_chat.Db.Models.{OutboxMessageModel}
use leaf_flow_chat.Db.Outbox.{OutboxRecord, is_waiting}
use leaf_flow_chat.Db.Session.{Session, in_session, rollback}
use leaf_flow_chat.Workers.OutboxWorker.Loop.{is_row}
use leaf_flow_chat.Workers.OutboxWorker.Batch.{settle}
use leaf_flow_chat.Workers.OutboxWorker.Outcome.{
  batch_rows, process_batch_run, process_batch_settles, process_batch_passes,
}
use leaf_flow_chat.Workers.OutboxWorker.Rounds.{
  Round, arrange, run_once, run_worker, process_fetched-rows,
}

module _ ⦃sql : Sql⦄ (settings : Settings) where
  -- What a row can become, with the number of tries that it may have.
  pub record Ages (x y : OutboxMessageModel) : Type 0 where
    pub same_id : y.id ≡ x.id
    pub more : x.attempts ≤ y.attempts
    pub bounded :
        x.attempts ≤ settings.outbox_max_attempts → y.attempts ≤ settings.outbox_max_attempts
    pub settled : is_waiting x.status ≡ false → y ≡ x

  Ages-refl : (x : OutboxMessageModel) → Ages x x
  Ages-refl x = record { same_id = refl; more = omega arith; bounded = λ h. h; settled = λ h. refl }

  Ages-trans : (x y z : OutboxMessageModel) → Ages x y → Ages y z → Ages x z
  Ages-trans x y z a b = record {
    same_id = b.same_id ∙ a.same_id;
    more = omega (arith, a.more, b.more);
    bounded = λ h. b.bounded (a.bounded h);
    settled = λ h.
        let stay = a.settled h in
        b.settled (ap (λ (w : OutboxMessageModel). is_waiting w.status) stay ∙ h) ∙ stay;
  }

  Ages-settle :
      (fails : OutboxRecord → Bool) (s : Session) (n : ℕ) (x : OutboxMessageModel)
      → is_waiting x.status ≡ true
      → Ages x (settle settings fails s n x)
  Ages-settle fails s n x waits = record {
    same_id = ground arith;
    more = ground arith;
    bounded = λ h. ground arith;
    settled = λ h. absurd (cc (waits, h));
  }

  -- the one committed row with its id
  pub record IsOnly (x : OutboxMessageModel) (s : Session) : Type 0 where
    pub once : count_p (is_row x.id) s.committed.outbox ≤ 1
    pub row : fetch (is_row x.id) unordered s.committed.outbox ≡ some x

  module _ (r : Round) (s : Session) where
    abbrev pub begun : Session
    begun = rollback (arrange r s)

    -- Of the rows with an id that passes a test, a run leaves as many as there were.
    pub run_once-count :
        (q : ℕ → Bool)
        → count_p (λ y. q y.id) (run_once settings r s).1.committed.outbox
          ≡ count_p (λ y. q y.id) s.committed.outbox
    unfolding in_session rollback
    run_once-count q =
        let ys = batch_rows settings r.fails begun in
        ap (λ z. count_p (λ y. q y.id) z.1.committed.outbox)
          (process_batch_run settings r.fails begun)
        ∙ process_fetched-rows q settings r.fails ys (record begun { ticks = begun.ticks + 1 }) refl

    pub run_once-Ages :
        (x : OutboxMessageModel)
        → IsOnly x s
        → (y : OutboxMessageModel) × Ages x y
          × (fetch (is_row x.id) unordered (run_once settings r s).1.committed.outbox ≡ some y)
    unfolding in_session rollback
    run_once-Ages x only = elim (Bool-cases (is_waiting x.status)) [
      | inr e ↦
          (x, Ages-refl x, process_batch_passes settings r.fails begun x refl only.once only.row e)
      | inl waits ↦ elim (Bool-cases (any (is_row x.id) (batch_rows settings r.fails begun))) [
        | inr e ↦ (
          x,
          Ages-refl x,
          (process_batch_settles settings r.fails begun x refl only.once only.row).0 e,
        )
        | inl e ↦
            let (n, found) =
              (process_batch_settles settings r.fails begun x refl only.once only.row).1 e in
            (settle settings r.fails begun n x, Ages-settle r.fails begun n x waits, found)
      ]
    ]

  run_worker-Ages :
      (rounds : List Round) (s : Session) (x : OutboxMessageModel)
      → IsOnly x s
      → (y : OutboxMessageModel) × Ages x y
        × (fetch (is_row x.id) unordered (run_worker settings rounds s).1.committed.outbox ≡ some y)
  unfolding run_worker
  run_worker-Ages [] s x only = (x, Ages-refl x, only.row)
  run_worker-Ages (r ∷ rest) s x only =
      let (y, aged, found) = run_once-Ages r s x only in
      let s' = (run_once settings r s).1 in
      let still : IsOnly y s' = record {
        once =
            subst (λ i. count_p (is_row i) s'.committed.outbox ≤ 1) (sym aged.same_id)
              (subst (λ n. n ≤ 1) (sym (run_once-count r s (λ j. j == x.id))) only.once);
        row =
            subst (λ i. fetch (is_row i) unordered s'.committed.outbox ≡ some y) (sym aged.same_id)
              found;
      } in
      let (z, later, end) = run_worker-Ages rest s' y still in
      (
        z,
        Ages-trans x y z aged later,
        subst
            (λ i.
              fetch (is_row i) unordered (run_worker settings rest s').1.committed.outbox ≡ some z)
            aged.same_id end,
      )

  -- Over any number of runs, whatever fails and whichever rows others hold, a committed row with an
  -- id of its own stays there; its attempts never go down and, from within the maximum, never pass
  -- it; and a row that is sent, or processing, is never changed again.
  pub retries_end :
      (rounds : List Round) (s : Session) (x : OutboxMessageModel)
      → count_p (is_row x.id) s.committed.outbox ≤ 1
      → fetch (is_row x.id) unordered s.committed.outbox ≡ some x
      → (y : OutboxMessageModel) × (fetch
            (is_row x.id)
            unordered
            (run_worker settings rounds s).1.committed.outbox
          ≡ some y)
        × (x.attempts ≤ y.attempts)
        × (x.attempts ≤ settings.outbox_max_attempts → y.attempts ≤ settings.outbox_max_attempts)
        × (is_waiting x.status ≡ false → y ≡ x)
  retries_end rounds s x once row =
      let (y, aged, found) = run_worker-Ages rounds s x (record { once = once; row = row }) in
      (y, found, aged.more, aged.bounded, aged.settled)
