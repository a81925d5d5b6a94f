-- ===== src/Workers/OutboxWorker/Fleet/Keeps.antt =====
-- One row of the outbox under the commit of a run.
use leaf_flow_chat.Prelude.{
  ℕ, ◌+◌, ◌≡◌, ◌≤◌, refl, ap, subst, inl, inr, Bool, true, false, not, ◌&&◌, some, List, [], ◌∷◌,
  map, take, count_p-take-le, arith, All, count_p, count_p-append, Bool-cases, ==_iff, ◌==◌,
}
use leaf_flow_chat.Settings.{Settings}
use leaf_flow_chat.Sql.{Sql, unordered}
use leaf_flow_chat.Sql.Laws.{fetch, fetch_meets, same, same_refl}
use leaf_flow_chat.Db.Models.{OutboxMessageModel, OutboxMessageModel-discrete}
use leaf_flow_chat.Db.Outbox.{OutboxRecord, to_record, is_waiting}
use leaf_flow_chat.Db.Session.{Session, rollback}
use leaf_flow_chat.Workers.OutboxWorker.Loop.{is_row, is_record, exhausted, sent_of, sent_ids}
use leaf_flow_chat.Workers.OutboxWorker.Batch.{settle, All-records, count_p-records}
use leaf_flow_chat.Workers.OutboxWorker.Outcome.{rows_left, rows_taken}
use leaf_flow_chat.Workers.OutboxWorker.Publishes.{settle-sent}
use leaf_flow_chat.Workers.OutboxWorker.Rounds.{Round, process_fetched-rows}
use leaf_flow_chat.Workers.OutboxWorker.Fleet.{opened, finish_batch}
use leaf_flow_chat.Workers.OutboxWorker.Fleet.Rows.{IsCurrent}

module _ ⦃sql : Sql⦄ (settings : Settings) (fails : OutboxRecord → Bool) (i : ℕ) where
  abbrev is_id : ℕ → Bool
  is_id j = j == i

  sent_of-le :
      (q : OutboxRecord) → count_p is_id (sent_of settings fails q) ≤ count_p (is_record i) (q ∷ [])
  sent_of-le q = ground arith

  sent_ids-le :
      (qs : List OutboxRecord)
      → count_p is_id (sent_ids settings fails qs) ≤ count_p (is_record i) qs
  sent_ids-le [] = omega arith
  sent_ids-le (q ∷ qs) = omega (
    arith,
    count_p-append is_id (sent_of settings fails q) (sent_ids settings fails qs),
    sent_of-le q,
    sent_ids-le qs,
  )

  -- A record that was published had attempts left, and Redis took it.
  sent_ids-tried :
      (rec : OutboxRecord) (qs : List OutboxRecord)
      → All (λ q. is_record i q ≡ true → q ≡ rec) qs
      → 1 ≤ count_p is_id (sent_ids settings fails qs)
      → (exhausted settings fails rec ≡ false) × (fails rec ≡ false)
  sent_ids-tried rec [] only some_sent = absurd (omega arith)
  sent_ids-tried rec (q ∷ qs) only some_sent =
      elim (Bool-cases (is_record i q && not (exhausted settings fails q) && not (fails q))) [
        | inl e ↦
            subst (λ p. (exhausted settings fails p ≡ false) × (fails p ≡ false))
              (only.0 (ground arith)) (ground arith, ground arith)
        | inr e ↦ sent_ids-tried rec qs only.1 (
            omega (
              arith,
              some_sent,
              count_p-append is_id (sent_of settings fails q) (sent_ids settings fails qs),
              none_of q e,
            ))
      ]
    where
      none_of :
          (p : OutboxRecord)
          → (is_record i p && not (exhausted settings fails p) && not (fails p)) ≡ false
          → count_p is_id (sent_of settings fails p) ≡ 0
      none_of p e = ground arith

-- The rows with the id are the committed one.
currents_same :
    ⦃sql : Sql⦄ (i : ℕ) (t : List OutboxMessageModel) (x : OutboxMessageModel)
    (ys : List OutboxMessageModel)
    → fetch (is_row i) unordered t ≡ some x
    → All (IsCurrent i t) ys
    → All (λ y. (is_row i y && not (same OutboxMessageModel-discrete x y)) ≡ false) ys
currents_same i t x [] row h = tt
currents_same i t x (y ∷ ys) row h = (one (is_row i y) refl, currents_same i t x ys row h.1)
  where
    one : (b : Bool) → is_row i y ≡ b → (b && not (same OutboxMessageModel-discrete x y)) ≡ false
    one false e = refl
    one true e =
        let equal : x ≡ y = cc (row, (h.0 e).0) in
        ap not (
          subst (λ z. same OutboxMessageModel-discrete x z ≡ true) equal
            (same_refl OutboxMessageModel-discrete x))

module _ ⦃sql : Sql⦄ (settings : Settings) (r : Round) (rows : List OutboxMessageModel)
    (s : Session) (i : ℕ) where
  abbrev before_it : List OutboxMessageModel
  before_it = s.committed.outbox

  abbrev after_it : List OutboxMessageModel
  after_it = (finish_batch settings r rows s).committed.outbox

  pub finish_count : count_p (is_row i) after_it ≡ count_p (is_row i) before_it
  unfolding finish_batch rollback
  finish_count =
      process_fetched-rows (λ j. j == i) settings r.fails rows
        (record (opened r s) { ticks = (opened r s).ticks + 1 }) refl

  module _ (x : OutboxMessageModel) (once : count_p (is_row i) before_it ≤ 1)
      (row : fetch (is_row i) unordered before_it ≡ some x) where
    its_id : x.id ≡ i
    its_id = (==_iff x.id i).0 (fetch_meets (is_row i) unordered before_it x row)

    -- A row that the batch does not have stays as it is.
    pub finish_apart : count_p (is_row i) rows ≡ 0 → fetch (is_row i) unordered after_it ≡ some x
    unfolding finish_batch rollback
    finish_apart apart =
        subst
          (λ j.
            count_p (is_row j) before_it ≤ 1
            → fetch (is_row j) unordered before_it ≡ some x
            → count_p (is_row j) rows ≡ 0
            → fetch (is_row j) unordered after_it ≡ some x)
          its_id
          (λ once' row' apart'.
            rows_left settings r.fails (opened r s) x once' row' rows refl apart')
          once row apart

    -- One that it has is published and committed as sent, or neither.
    pub finish_taken :
        count_p (is_row i) rows ≡ 1
        → All (IsCurrent i before_it) rows
        → (y : OutboxMessageModel) × (fetch (is_row i) unordered after_it ≡ some y)
          × (1 ≤ count_p (λ j. j == i) (sent_ids settings r.fails (map to_record rows))
              → is_waiting y.status ≡ false)
    unfolding finish_batch rollback
    finish_taken one held =
        let only = currents_same i before_it x rows row held in
        let (n, found) =
          subst
            (λ j.
              count_p (is_row j) before_it ≤ 1
              → fetch (is_row j) unordered before_it ≡ some x
              → count_p (is_row j) rows ≡ 1
              → All (λ y. (is_row j y && not (same OutboxMessageModel-discrete x y)) ≡ false) rows
              → (n : ℕ) × (fetch (is_row j) unordered after_it
                  ≡ some (settle settings r.fails (opened r s) n x)))
            its_id
            (λ once' row' one' only'.
              rows_taken settings r.fails (opened r s) x once' row' rows one' only')
            once row one only in
        (
          settle settings r.fails (opened r s) n x,
          found,
          λ published.
              let (fresh, taken) =
                sent_ids-tried settings r.fails i (to_record x) (map to_record rows)
                  (All-records i x rows only) published in
              ap (λ (y : OutboxMessageModel). is_waiting y.status)
                (settle-sent settings r.fails (opened r s) n x fresh taken),
        )

  -- What a batch publishes, it has.
  pub published-le :
      count_p (λ j. j == i) (sent_ids settings r.fails (map to_record rows))
      ≤ count_p (is_row i) rows
  published-le =
      omega (arith, sent_ids-le settings r.fails i (map to_record rows), count_p-records i rows)

  -- nor more in a part of it
  pub published_part-le :
      (k : ℕ)
      → count_p (λ j. j == i) (sent_ids settings r.fails (take k (map to_record rows)))
        ≤ count_p (is_row i) rows
  published_part-le k = omega (
    arith,
    sent_ids-le settings r.fails i (take k (map to_record rows)),
    count_p-take-le (is_record i) k (map to_record rows),
    count_p-records i rows,
  )
