-- ===== src/Workers/OutboxWorker/Fleet/Rows.antt =====
-- One row of the outbox under the batches that runs take.
use leaf_flow_chat.Prelude.{
  ℕ, ◌≡◌, ◌≤◌, refl, ap, ◌∙◌, inl, inr, Bool, true, false, not, ◌&&◌, some, List, [], ◌∷◌, arith,
  All, count_p, Bool-cases, Option-cases, ==_iff, count_p-take-le, count_p_mono, count_p-false,
  count_p_split, All-count_p,
}
use leaf_flow_chat.Settings.{Settings}
use leaf_flow_chat.Sql.{Sql, unordered}
use leaf_flow_chat.Sql.Laws.{fetch, fetch-none, fetch-counted, same, same-eq}
use leaf_flow_chat.Db.Models.{OutboxMessageModel, OutboxMessageModel-discrete}
use leaf_flow_chat.Db.Outbox.{is_waiting, is_fetchable, oldest_first}
use leaf_flow_chat.Db.Session.{rollback}
use leaf_flow_chat.Workers.OutboxWorker.Loop.{is_row}
use leaf_flow_chat.Workers.OutboxWorker.Rounds.{Round}
use leaf_flow_chat.Workers.OutboxWorker.Fleet.{Fleet, is_held, take_batch}

-- If the row has the id, it is the committed one, and waits to be published.
abbrev pub IsCurrent : ⦃sql : Sql⦄ → ℕ → List OutboxMessageModel → OutboxMessageModel → Type 0
IsCurrent i t y =
    is_row i y ≡ true → (fetch (is_row i) unordered t ≡ some y) × (is_waiting y.status ≡ true)

pub All-absent :
    {A : Type 0} (p : A → Bool) (Q : A → Type 0) (xs : List A)
    → count_p p xs ≡ 0
    → All (λ x. p x ≡ true → Q x) xs
All-absent p Q [] h = tt
All-absent p Q (x ∷ xs) h = (λ e. absurd (ground arith), All-absent p Q xs (ground arith))

-- Rows none of which can have the id, where the committed row with the id waits for nothing.
pub none_current :
    ⦃sql : Sql⦄ (i : ℕ) (t : List OutboxMessageModel) (x : OutboxMessageModel)
    (ys : List OutboxMessageModel)
    → fetch (is_row i) unordered t ≡ some x
    → is_waiting x.status ≡ false
    → All (IsCurrent i t) ys
    → count_p (is_row i) ys ≡ 0
none_current i t x [] row done h = refl
none_current i t x (y ∷ ys) row done h = elim (Bool-cases (is_row i y)) [
  | inl e ↦
      let (row', waits) = h.0 e in
      let one : x ≡ y = cc (row, row') in
      absurd (cc (ap (λ (z : OutboxMessageModel). is_waiting z.status) one, done, waits))
  | inr e ↦ ground (arith, none_current i t x ys row done h.1)
]

-- Where a row is the only one with its id, each row with the id is this one.
pub no_other :
    ⦃sql : Sql⦄ (i : ℕ) (t : List OutboxMessageModel) (x : OutboxMessageModel)
    → count_p (is_row i) t ≤ 1
    → fetch (is_row i) unordered t ≡ some x
    → count_p (λ y. is_row i y && not (same OutboxMessageModel-discrete x y)) t ≡ 0
no_other i t x once row = omega (
  arith,
  once,
  fetch-counted OutboxMessageModel-discrete (is_row i) unordered t x row,
  count_p_split (is_row i) (same OutboxMessageModel-discrete x) t,
)

module _ ⦃sql : Sql⦄ (settings : Settings) (r : Round) (f : Fleet) (i : ℕ) where
  abbrev table : List OutboxMessageModel
  table = f.session.committed.outbox

  abbrev batch : List OutboxMessageModel
  batch = take_batch settings r f

  -- A batch has what its SELECT finds.
  batch-le :
      (p : OutboxMessageModel → Bool)
      → count_p p batch ≤ count_p (λ y. is_fetchable (is_held f.batches) (r.clock 0) y && p y) table
  unfolding take_batch rollback
  batch-le p = omega (
    arith,
    count_p-take-le p settings.outbox_batch_size
        (sql.select (is_fetchable (is_held f.batches) (r.clock 0)) oldest_first table),
    sql.count_p-select p (is_fetchable (is_held f.batches) (r.clock 0)) oldest_first table,
  )

  abbrev meets : (OutboxMessageModel → Bool) → OutboxMessageModel → Bool
  meets p y = is_fetchable (is_held f.batches) (r.clock 0) y && p y

  batch-le_all : (p : OutboxMessageModel → Bool) → count_p p batch ≤ count_p p table
  batch-le_all p = omega (arith, batch-le p, count_p_mono (meets p) p table (λ y h. ground arith))

  pub batch_once : count_p (is_row i) table ≤ 1 → count_p (is_row i) batch ≤ 1
  batch_once once = omega (arith, once, batch-le_all (is_row i))

  -- A row that another run holds is in no batch.
  pub batch_skips : is_held f.batches i ≡ true → count_p (is_row i) batch ≡ 0
  batch_skips held = omega (
    arith,
    batch-le (is_row i),
    count_p-false (meets (is_row i)) table (λ y. elim (Bool-cases (is_row i y)) [
      | inl e ↦ ground (arith, ap (is_held f.batches) ((==_iff y.id i).0 e))
      | inr e ↦ ground arith
    ]),
  )

  All-wait : All (λ y. not (is_waiting y.status) ≡ false) batch
  All-wait =
      All-count_p (λ y. not (is_waiting y.status)) batch
        (omega (
          arith,
          batch-le (λ y. not (is_waiting y.status)),
          count_p-false (meets (λ y. not (is_waiting y.status))) table (λ y. ground arith),
        ))

  current :
      (x : OutboxMessageModel) (ys : List OutboxMessageModel)
      → fetch (is_row i) unordered table ≡ some x
      → All (λ y. (is_row i y && not (same OutboxMessageModel-discrete x y)) ≡ false) ys
      → All (λ y. not (is_waiting y.status) ≡ false) ys
      → All (IsCurrent i table) ys
  current x [] row only wait = tt
  current x (y ∷ ys) row only wait = (
    λ e. (row ∙ ap some (same-eq OutboxMessageModel-discrete x y (ground arith)), ground arith),
    current x ys row only.1 wait.1,
  )

  pub batch-IsCurrent : count_p (is_row i) table ≤ 1 → All (IsCurrent i table) batch
  batch-IsCurrent once = elim (Option-cases (fetch (is_row i) unordered table)) [
    | inl e ↦
        All-absent (is_row i)
          (λ y. (fetch (is_row i) unordered table ≡ some y) × (is_waiting y.status ≡ true)) batch
          (omega (arith, batch-le_all (is_row i), fetch-none (is_row i) unordered table e))
    | inr (x, e) ↦
        current x batch e
          (All-count_p (λ y. is_row i y && not (same OutboxMessageModel-discrete x y)) batch
            (omega (
              arith,
              batch-le_all (λ y. is_row i y && not (same OutboxMessageModel-discrete x y)),
              no_other i table x once e,
            )))
          All-wait
  ]
