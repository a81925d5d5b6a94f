-- ===== src/Workers/OutboxWorker/Fleet/Exclusive.antt =====
-- What every step of several workers keeps of one record: its holder, and who has published it.
use leaf_flow_chat.Prelude.{
  ℕ, ◌+◌, ◌≡◌, ◌≤◌, ap, subst, inl, inr, Bool, true, false, some, List, [], ◌∷◌, ◌++◌, map, take,
  arith, All, count_p, count_p-append, any-count_p, Bool-cases, ◌==◌, ltb,
}
use leaf_flow_chat.Settings.{Settings}
use leaf_flow_chat.Sql.{Sql, unordered}
use leaf_flow_chat.Sql.Laws.{fetch}
use leaf_flow_chat.Db.Models.{OutboxMessageModel}
use leaf_flow_chat.Db.Outbox.{to_record, is_waiting}
use leaf_flow_chat.Workers.OutboxWorker.Loop.{is_row, sent_ids}
use leaf_flow_chat.Workers.OutboxWorker.Rounds.{Round}
use leaf_flow_chat.Workers.OutboxWorker.Fleet.{
  Fleet, flat, is_held, finish_batch, take_batch, Step, takes, finishes, fails, others, Reach, here,
  next,
}
use leaf_flow_chat.Workers.OutboxWorker.Fleet.Flat.{All-append, All-middle, count_p-middle}
use leaf_flow_chat.Workers.OutboxWorker.Fleet.Rows.{
  IsCurrent, All-absent, none_current, batch_once, batch_skips, batch-IsCurrent,
}
use leaf_flow_chat.Workers.OutboxWorker.Fleet.Keeps.{
  finish_count, finish_apart, finish_taken, published-le, published_part-le,
}

module _ ⦃sql : Sql⦄ (settings : Settings) (i : ℕ) where
  abbrev is_id : ℕ → Bool
  is_id j = j == i

  -- The committed row with the id is there, and no run takes it any more.
  abbrev pub IsSettled : List OutboxMessageModel → Type 0
  IsSettled t =
      (x : OutboxMessageModel) × (fetch (is_row i) unordered t ≡ some x)
      × (is_waiting x.status ≡ false)

  pub record IsExclusive (f : Fleet) : Type 0 where
    pub once : count_p (is_row i) f.session.committed.outbox ≤ 1
    pub single : count_p (is_row i) (flat f.batches) + count_p is_id f.published ≤ 1
    pub held_rows : All (IsCurrent i f.session.committed.outbox) (flat f.batches)
    pub settled : 1 ≤ count_p is_id f.published → IsSettled f.session.committed.outbox
    pub repeats : All (λ ids. count_p is_id ids ≤ 1) f.rolled_back

  current_there :
      (t ys : List OutboxMessageModel)
      → 1 ≤ count_p (is_row i) ys
      → All (IsCurrent i t) ys
      → (x : OutboxMessageModel) × (fetch (is_row i) unordered t ≡ some x)
  current_there t [] some_here h = absurd (omega arith)
  current_there t (y ∷ ys) some_here h = elim (Bool-cases (is_row i y)) [
    | inl e ↦ (y, (h.0 e).0)
    | inr e ↦ current_there t ys (ground arith) h.1
  ]

  -- Rows that are still the committed ones, where each committed row is as it was.
  All-moves :
      (t t' ys : List OutboxMessageModel)
      → ((x : OutboxMessageModel)
          → fetch (is_row i) unordered t ≡ some x
          → fetch (is_row i) unordered t' ≡ some x)
      → All (IsCurrent i t) ys
      → All (IsCurrent i t') ys
  All-moves t t' [] same h = tt
  All-moves t t' (y ∷ ys) same h = (λ e. (same y (h.0 e).0, (h.0 e).1), All-moves t t' ys same h.1)

  takes-IsExclusive :
      (f : Fleet) (r : Round)
      → IsExclusive f
      → IsExclusive (record f { batches = take_batch settings r f ∷ f.batches })
  takes-IsExclusive f r h = record {
    once = h.once;
    single =
        omega (arith, count_p-append (is_row i) (take_batch settings r f) (flat f.batches), fits);
    held_rows =
        All-append (IsCurrent i f.session.committed.outbox) (take_batch settings r f)
          (flat f.batches) (batch-IsCurrent settings r f i h.once) h.held_rows;
    settled = h.settled;
    repeats = h.repeats;
  }
    where
      fits :
          count_p (is_row i) (take_batch settings r f)
            + count_p (is_row i) (flat f.batches)
            + count_p is_id f.published
          ≤ 1
      fits = elim (Bool-cases (is_held f.batches i)) [
        | inl held ↦ omega (arith, batch_skips settings r f i held, h.single)
        | inr free ↦ elim (Bool-cases (ltb 0 (count_p is_id f.published))) [
          | inl done ↦
              let (x, row, settled) = h.settled (ground arith) in
              omega (
                arith,
                h.single,
                none_current i f.session.committed.outbox x (take_batch settings r f) row settled
                    (batch-IsCurrent settings r f i h.once),
              )
          | inr none_yet ↦
              ground
                (arith, any-count_p (is_row i) (flat f.batches), batch_once settings r f i h.once)
        ]
      ]

  module _ (f : Fleet) (h : IsExclusive f) (before after : List (List OutboxMessageModel))
      (rows : List OutboxMessageModel) (is : f.batches ≡ before ++ rows ∷ after) where
    abbrev rest : List OutboxMessageModel
    rest = flat (before ++ after)

    pub split_count :
        count_p (is_row i) rows + count_p (is_row i) rest + count_p is_id f.published ≤ 1
    split_count = omega (
      arith,
      h.single,
      ap (λ b. count_p (is_row i) (flat b)) is,
      count_p-middle (is_row i) before after rows,
    )

    split_rows :
        All (IsCurrent i f.session.committed.outbox) rows
        × All (IsCurrent i f.session.committed.outbox) rest
    split_rows =
        All-middle (IsCurrent i f.session.committed.outbox) before after rows
          (subst (λ b. All (IsCurrent i f.session.committed.outbox) (flat b)) is h.held_rows)

    fails-IsExclusive :
        (r : Round) (k : ℕ)
        → IsExclusive (record f {
          batches = before ++ after;
          rolled_back = sent_ids settings r.fails (take k (map to_record rows)) ∷ f.rolled_back;
        })
    fails-IsExclusive r k = record {
      once = h.once;
      single = omega (arith, split_count);
      held_rows = split_rows.1;
      settled = h.settled;
      repeats =
          (omega (arith, split_count, published_part-le settings r rows f.session i k), h.repeats);
    }

    module _ (r : Round) where
      abbrev end : List OutboxMessageModel
      end = (finish_batch settings r rows f.session).committed.outbox

      abbrev ids : List ℕ
      ids = sent_ids settings r.fails (map to_record rows)

      untouched :
          count_p (is_row i) rows ≡ 0
          → (x : OutboxMessageModel)
          → fetch (is_row i) unordered f.session.committed.outbox ≡ some x
          → fetch (is_row i) unordered end ≡ some x
      untouched apart x row = finish_apart settings r rows f.session i x h.once row apart

      finish-held_rows : All (IsCurrent i end) rest
      finish-held_rows = elim (Bool-cases (ltb 0 (count_p (is_row i) rows))) [
        | inl mine ↦
            All-absent (is_row i)
              (λ y. (fetch (is_row i) unordered end ≡ some y) × (is_waiting y.status ≡ true)) rest
              (ground (arith, split_count))
        | inr apart ↦
            All-moves f.session.committed.outbox end rest (untouched (ground arith)) split_rows.1
      ]

      finish-IsSettled : 1 ≤ count_p is_id (ids ++ f.published) → IsSettled end
      finish-IsSettled out = elim (Bool-cases (ltb 0 (count_p (is_row i) rows))) [
        | inl mine ↦
            let (x, row) =
              current_there f.session.committed.outbox rows (ground arith) split_rows.0 in
            let (y, found, done) =
              finish_taken settings r rows f.session i x h.once row (ground (arith, split_count))
                split_rows.0 in
            (
              y,
              found,
              done (ground (arith, out, split_count, count_p-append is_id ids f.published)),
            )
        | inr apart ↦
            let (x, row, done) = h.settled (
              ground (
                arith,
                out,
                count_p-append is_id ids f.published,
                published-le settings r rows f.session i,
              )) in
            (x, untouched (ground arith) x row, done)
      ]

      finishes-IsExclusive : IsExclusive (record {
        session = finish_batch settings r rows f.session;
        batches = before ++ after;
        published = ids ++ f.published;
        rolled_back = f.rolled_back;
      })
      finishes-IsExclusive = record {
        once = omega (arith, h.once, finish_count settings r rows f.session i);
        single = omega (
          arith,
          split_count,
          count_p-append is_id ids f.published,
          published-le settings r rows f.session i,
        );
        held_rows = finish-held_rows;
        settled = finish-IsSettled;
        repeats = h.repeats;
      }

  Step-IsExclusive : {f g : Fleet} → Step settings f g → IsExclusive f → IsExclusive g
  Step-IsExclusive {f} (takes r) h = takes-IsExclusive f r h
  Step-IsExclusive {f} (finishes r before after rows is) h =
      finishes-IsExclusive f h before after rows is r
  Step-IsExclusive {f} (fails r k before after rows is) h =
      fails-IsExclusive f h before after rows is r k
  Step-IsExclusive {f} (others s' rely) h = record {
    once = rely.still_once i h.once;
    single = h.single;
    held_rows =
        All-moves f.session.committed.outbox s'.committed.outbox (flat f.batches)
          (λ x row. rely.same_row i x h.once row) h.held_rows;
    settled = λ out. let (x, row, done) = h.settled out in (x, rely.same_row i x h.once row, done);
    repeats = h.repeats;
  }

  pub Reach-IsExclusive : {f g : Fleet} → Reach settings f g → IsExclusive f → IsExclusive g
  Reach-IsExclusive here h = h
  Reach-IsExclusive (next reach step) h = Step-IsExclusive step (Reach-IsExclusive reach h)
