-- ===== src/Workers/ConsumerRun.antt =====
-- `run_consumer` of workers/leaf_events_consumer.py: the `start` and the `stop` of the stream consumer
-- (infrastructure/bus/redis_streams.py) around its rounds, and the process started again.
pub mod Calls
use leaf_flow_chat.Prelude.{
  ℕ, zero, suc, ◌≡◌, ◌≤◌, refl, sym, subst, inl, inr, Option-cases, Option, none, some, List, [],
  ◌∷◌, ◌++◌, String, arith, take, count_p-take-le, ◌==◌,
}
use leaf_flow_chat.Errors.{Result}
use leaf_flow_chat.Workers.LeafEventsConsumer.{Fields}
use leaf_flow_chat.Workers.StreamConsumer.{Entry, consume}
use leaf_flow_chat.Workers.StreamLoop.{
  Group, Creation, IsBetween, times, Reader, read_entries, ensure_group, rounds, times-below, IsNew,
  IsNew-append, read_entries-IsNew, rounds-IsNew,
}

-- A run of the process: what XGROUP CREATE answers, the rounds before the task is cancelled, and how
-- many entries of the round under way it has finished by then.
pub record Run : Type 0 where
  pub creation : Creation
  pub whole_rounds : ℕ
  pub finished : ℕ

module _ ⦃group : Group⦄ (batch_size : ℕ) {S : Type 0}
    (callback : String → Fields → S → Result (Unit {0}) × S) where
  -- The round in which CancelledError comes: `except Exception` does not handle it, so the entry
  -- under way and those behind it are neither handled nor acknowledged. (The one under way is taken
  -- to be cancelled before it commits anything.)
  unfoldable pub interrupted :
      ℕ → Reader batch_size callback → List Entry × Reader batch_size callback
  interrupted k (g, s) =
      let (entries, g') = group.xreadgroup batch_size g in
      let handled = take k (read_entries batch_size callback entries) in
      let (ids, s') = consume callback handled s in (handled, (group.xack ids g', s'))

  -- `_consume` as a task, until it is cancelled
  unfoldable pub until_cancelled :
      ℕ → ℕ → Reader batch_size callback → List Entry × Reader batch_size callback
  until_cancelled n k r =
      let (handled, r') = rounds batch_size callback n r in
      let (more, end) = interrupted k r' in (handled ++ more, end)

  -- what `start` does after `ensure_group`: nothing where that raised
  abbrev pub started :
      Option String → Run → Reader batch_size callback → List Entry × Reader batch_size callback
  started (some message) run r = ([], r)
  started none run r = until_cancelled run.whole_rounds run.finished r

  unfoldable pub run_consumer :
      Run → Reader batch_size callback → List Entry × Reader batch_size callback
  run_consumer run r = started (ensure_group run.creation) run r

  -- the process, started again and again
  unfoldable pub restarts :
      List Run → Reader batch_size callback → List Entry × Reader batch_size callback
  restarts [] r = ([], r)
  restarts (run ∷ runs) r =
      let (handled, r') = run_consumer run r in
      let (more, end) = restarts runs r' in (handled ++ more, end)

IsBetween-take : (a b k : ℕ) (es : List Entry) → IsBetween a b es → IsBetween a b (take k es)
IsBetween-take a b zero es h = tt
IsBetween-take a b (suc k) [] h = tt
IsBetween-take a b (suc k) (e ∷ es) h = (h.0, IsBetween-take a b k es h.1)

module _ ⦃group : Group⦄ (batch_size : ℕ) {S : Type 0}
    (callback : String → Fields → S → Result (Unit {0}) × S) where
  -- The entries are newer than what was delivered before, and what was delivered covers them.
  abbrev Advances : group.State → List Entry × Reader batch_size callback → Type 0
  Advances g (handled, end) =
      IsNew batch_size callback (group.delivered g) (group.delivered end.0) handled

  interrupted-Advances :
      (k : ℕ) (g : group.State) (s : S) → Advances g (interrupted batch_size callback k (g, s))
  unfolding interrupted
  interrupted-Advances k g s =
      let (entries, g') = group.xreadgroup batch_size g in
      let es = read_entries batch_size callback entries in
      let (ids, s') = consume callback (take k es) s in
      let (new, once) = read_entries-IsNew batch_size callback g entries refl in
      subst (λ d. IsNew batch_size callback (group.delivered g) d (take k es))
        (sym (group.delivered-xack ids g'))
        (
          group.xreadgroup_advances batch_size g,
          IsBetween-take _ _ k es new,
          λ i. omega (arith, once i, count_p-take-le (λ e. e.0 == i) k es),
        )

  run_consumer-Advances :
      (run : Run) (g : group.State) (s : S)
      → Advances g (run_consumer batch_size callback run (g, s))
  unfolding run_consumer until_cancelled
  run_consumer-Advances run g s = elim (Option-cases (ensure_group run.creation)) [
    | inr (message, e) ↦ rw e (omega arith, tt, λ i. omega arith)
    | inl e ↦
        let r = (rounds batch_size callback run.whole_rounds (g, s)).1 in
        rw e (
          IsNew-append batch_size callback _ _ _ _ _
            (rounds-IsNew batch_size callback run.whole_rounds g s)
            (interrupted-Advances run.finished r.0 r.1))
  ]

  restarts-Advances :
      (runs : List Run) (g : group.State) (s : S)
      → Advances g (restarts batch_size callback runs (g, s))
  unfolding restarts
  restarts-Advances [] g s = (omega arith, tt, λ i. omega arith)
  restarts-Advances (run ∷ runs) g s =
      let r = (run_consumer batch_size callback run (g, s)).1 in
      IsNew-append batch_size callback _ _ _ _ _ (run_consumer-Advances run g s)
        (restarts-Advances runs r.0 r.1)

  -- However often the process is started and cancelled, the entries that it goes through come once
  -- each, and none was delivered before.
  pub restarts-new :
      (runs : List Run) (g : group.State) (s : S)
      → let handled = (restarts batch_size callback runs (g, s)).0 in
        ((i : ℕ) → times i handled ≤ 1) × ((i : ℕ) → i ≤ group.delivered g → times i handled ≡ 0)
  restarts-new runs g s =
      let (le, new, once) = restarts-Advances runs g s in (once, λ i h. times-below _ _ i _ new h)
