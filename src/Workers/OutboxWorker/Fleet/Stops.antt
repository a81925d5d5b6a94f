-- ===== src/Workers/OutboxWorker/Fleet/Stops.antt =====
-- A record that a committed run has published is published no more.
use leaf_flow_chat.Prelude.{
  ℕ, ◌≡◌, ◌≤◌, refl, ◌∙◌, Bool, map, take, arith, count_p, count_p-append, ◌==◌,
}
use leaf_flow_chat.Settings.{Settings}
use leaf_flow_chat.Sql.{Sql}
use leaf_flow_chat.Db.Outbox.{to_record}
use leaf_flow_chat.Workers.OutboxWorker.Loop.{sent_ids}
use leaf_flow_chat.Workers.OutboxWorker.Fleet.{
  Fleet, flat, Step, takes, finishes, fails, others, Reach, here, next,
}
use leaf_flow_chat.Workers.OutboxWorker.Fleet.Keeps.{published_part-le}
use leaf_flow_chat.Workers.OutboxWorker.Fleet.Exclusive.{
  IsExclusive, split_count, Reach-IsExclusive,
}

module _ ⦃sql : Sql⦄ (settings : Settings) (i : ℕ) where
  abbrev is_id : ℕ → Bool
  is_id j = j == i

  -- After a run has committed with the record published, no run publishes it any more.
  Step-stops :
      {f g : Fleet}
      → Step settings f g
      → IsExclusive settings i f
      → 1 ≤ count_p is_id f.published
      → (1 ≤ count_p is_id g.published)
        × (count_p is_id (flat g.rolled_back) ≡ count_p is_id (flat f.rolled_back))
  Step-stops {f} (takes r) h out = (out, refl)
  Step-stops {f} (finishes r before after rows is) h out =
      let ids = sent_ids settings r.fails (map to_record rows) in
      (omega (arith, out, count_p-append is_id ids f.published), refl)
  Step-stops {f} (fails r k before after rows is) h out =
      let ids = sent_ids settings r.fails (take k (map to_record rows)) in
      (
        out,
        omega (
          arith,
          out,
          count_p-append is_id ids (flat f.rolled_back),
          published_part-le settings r rows f.session i k,
          split_count settings i f h before after rows is,
        ),
      )
  Step-stops {f} (others s' rely) h out = (out, refl)

  pub Reach-stops :
      {f g : Fleet}
      → Reach settings f g
      → IsExclusive settings i f
      → 1 ≤ count_p is_id f.published
      → (1 ≤ count_p is_id g.published)
        × (count_p is_id (flat g.rolled_back) ≡ count_p is_id (flat f.rolled_back))
  Reach-stops here h out = (out, refl)
  Reach-stops (next reach step) h out =
      let (still, same) = Reach-stops reach h out in
      let (end, same') = Step-stops step (Reach-IsExclusive settings i reach h) still in
      (end, same' ∙ same)
