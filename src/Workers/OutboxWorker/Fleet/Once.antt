-- ===== src/Workers/OutboxWorker/Fleet/Once.antt =====
-- What the runs of several workers publish of one record, however they interleave.
use leaf_flow_chat.Prelude.{ℕ, ◌+◌, ◌≡◌, ◌≤◌, sym, ap, subst, [], arith, All, count_p, ◌==◌}
use leaf_flow_chat.Settings.{Settings}
use leaf_flow_chat.Sql.{Sql}
use leaf_flow_chat.Workers.OutboxWorker.Loop.{is_row}
use leaf_flow_chat.Workers.OutboxWorker.Fleet.{Fleet, flat, Reach}
use leaf_flow_chat.Workers.OutboxWorker.Fleet.Rows.{IsCurrent}
use leaf_flow_chat.Workers.OutboxWorker.Fleet.Exclusive.{IsSettled, IsExclusive, Reach-IsExclusive}
use leaf_flow_chat.Workers.OutboxWorker.Fleet.Stops.{Reach-stops}

-- While workers take, finish and give up batches in any order, other transactions in between, and
-- none under way at the beginning: of a record that occurs at most once in the outbox, at most one
-- run holds it or has committed with it published, never two of either. A run that raises, after
-- publishing some of its records or none, rolls back and leaves them to be published again, and has
-- published it at most once. Where a run has committed with it published, the committed row is there
-- and waits for nothing, and from then on no run publishes it, not even one that raises.
pub published_once :
    ⦃sql : Sql⦄ (settings : Settings) (f g h : Fleet) (i : ℕ)
    → f.batches ≡ []
    → f.published ≡ []
    → f.rolled_back ≡ []
    → count_p (is_row i) f.session.committed.outbox ≤ 1
    → Reach settings f g
    → Reach settings g h
    → (count_p (is_row i) (flat g.batches) + count_p (λ j. j == i) g.published ≤ 1)
      × All (λ ids. count_p (λ j. j == i) ids ≤ 1) g.rolled_back
      × (1 ≤ count_p (λ j. j == i) g.published
          → IsSettled settings i g.session.committed.outbox
            × (count_p (λ j. j == i) h.published ≡ 1)
            × (count_p (λ j. j == i) (flat h.rolled_back)
                ≡ count_p (λ j. j == i) (flat g.rolled_back)))
published_once settings f g h i idle nothing none_back once reach more =
    let begin : IsExclusive settings i f = record {
      once = once;
      single = rw (idle, nothing) (omega arith);
      held_rows = subst (λ b. All (IsCurrent i f.session.committed.outbox) (flat b)) (sym idle) tt;
      settled = λ out. absurd (omega (arith, out, ap (count_p (λ j. j == i)) nothing));
      repeats = subst (λ b. All (λ ids. count_p (λ j. j == i) ids ≤ 1) b) (sym none_back) tt;
    } in
    let middle = Reach-IsExclusive settings i reach begin in
    let end = Reach-IsExclusive settings i more middle in
    (
      middle.single,
      middle.repeats,
      λ out.
          let (still, same) = Reach-stops settings i more middle out in
          (middle.settled out, omega (arith, still, end.single), same),
    )
