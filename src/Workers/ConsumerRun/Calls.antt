-- ===== src/Workers/ConsumerRun/Calls.antt =====
-- How often the stream consumer calls its callback.
use leaf_flow_chat.Prelude.{
  ℕ, zero, suc, ◌≡◌, ◌≤◌, refl, sym, ap, ◌∙◌, inl, inr, Option-cases, List, [], ◌∷◌, ◌++◌, String,
  map, append_assoc, append-nil,
}
use leaf_flow_chat.Errors.{Result}
use leaf_flow_chat.Workers.LeafEventsConsumer.{Fields}
use leaf_flow_chat.Workers.StreamConsumer.{Entry, Call, call_of, recorded, consume-calls}
use leaf_flow_chat.Workers.StreamLoop.{Group, times, ensure_group, round, rounds}
use leaf_flow_chat.Workers.ConsumerRun.{
  Run, interrupted, until_cancelled, run_consumer, restarts, restarts-new,
}

map-append : {A B : Type 0} (f : A → B) (xs ys : List A) → map f (xs ++ ys) ≡ map f xs ++ map f ys
map-append f [] ys = refl
map-append f (x ∷ xs) ys = ap (λ zs. f x ∷ zs) (map-append f xs ys)

module _ ⦃group : Group⦄ (batch_size : ℕ) {S : Type 0}
    (callback : String → Fields → S → Result (Unit {0}) × S) where
  -- What a step goes through is what it calls the callback for.
  abbrev Logs : List Call → List Entry × (group.State × (S × List Call)) → Type 0
  Logs calls (handled, end) = end.1.1 ≡ calls ++ map call_of handled

  Logs-append :
      (calls middle end : List Call) (xs ys : List Entry)
      → middle ≡ calls ++ map call_of xs
      → end ≡ middle ++ map call_of ys
      → end ≡ calls ++ map call_of (xs ++ ys)
  Logs-append calls middle end xs ys first second =
      second
      ∙ ap (λ zs. zs ++ map call_of ys) first
      ∙ append_assoc calls (map call_of xs) (map call_of ys)
      ∙ ap (λ zs. calls ++ zs) (sym (map-append call_of xs ys))

  round-Logs :
      (g : group.State) (s : S) (calls : List Call)
      → Logs calls (round batch_size (recorded callback) (g, (s, calls)))
  unfolding round
  round-Logs g s calls = consume-calls callback _ s calls

  rounds-Logs :
      (n : ℕ) (g : group.State) (s : S) (calls : List Call)
      → Logs calls (rounds batch_size (recorded callback) n (g, (s, calls)))
  unfolding rounds
  rounds-Logs zero g s calls = sym (append-nil calls)
  rounds-Logs (suc n) g s calls =
      let (g', (s', calls')) = (round batch_size (recorded callback) (g, (s, calls))).1 in
      Logs-append calls calls' _ _ _ (round-Logs g s calls) (rounds-Logs n g' s' calls')

  interrupted-Logs :
      (k : ℕ) (g : group.State) (s : S) (calls : List Call)
      → Logs calls (interrupted batch_size (recorded callback) k (g, (s, calls)))
  unfolding interrupted
  interrupted-Logs k g s calls = consume-calls callback _ s calls

  run_consumer-Logs :
      (run : Run) (g : group.State) (s : S) (calls : List Call)
      → Logs calls (run_consumer batch_size (recorded callback) run (g, (s, calls)))
  unfolding run_consumer until_cancelled
  run_consumer-Logs run g s calls = elim (Option-cases (ensure_group run.creation)) [
    | inr (message, e) ↦ rw e (sym (append-nil calls))
    | inl e ↦
        let (g', (s', calls')) =
          (rounds batch_size (recorded callback) run.whole_rounds (g, (s, calls))).1 in
        rw e (
          Logs-append calls calls' _ _ _ (rounds-Logs run.whole_rounds g s calls)
            (interrupted-Logs run.finished g' s' calls'))
  ]

  restarts-Logs :
      (runs : List Run) (g : group.State) (s : S) (calls : List Call)
      → Logs calls (restarts batch_size (recorded callback) runs (g, (s, calls)))
  unfolding restarts
  restarts-Logs [] g s calls = sym (append-nil calls)
  restarts-Logs (run ∷ runs) g s calls =
      let (g', (s', calls')) =
        (run_consumer batch_size (recorded callback) run (g, (s, calls))).1 in
      Logs-append calls calls' _ _ _ (run_consumer-Logs run g s calls)
        (restarts-Logs runs g' s' calls')

  -- However often the consumer's process is started and cancelled, at whichever entry of a round,
  -- the calls of the callback are one for each entry of some list, in its order, with the entry's
  -- event type and fields. The list has no entry twice, those with failed handling included, and
  -- none that was delivered before. (A call that is cancelled before it commits is not counted.)
  pub restarts_call_once :
      (runs : List Run) (g : group.State) (s : S)
      → let (handled, end) = restarts batch_size (recorded callback) runs (g, (s, [])) in
        (end.1.1 ≡ map call_of handled)
        × ((i : ℕ) → times i handled ≤ 1)
        × ((i : ℕ) → i ≤ group.delivered g → times i handled ≡ 0)
  restarts_call_once runs g s =
      let (once, new) = restarts-new batch_size (recorded callback) runs g (s, []) in
      (restarts-Logs runs g s [], once, new)
