-- ===== src/Ws/Interleaved/Disturbed.antt =====
-- A broadcast while other tasks enter or leave its conversation.
use leaf_flow_chat.Prelude.{String, ◌≡◌, refl, ap, ◌∙◌, Bool, false, List, ◌∷◌, ◌==◌, All, length}
use leaf_flow_chat.Prelude.Dict.{get, nat_eq, string_eq}
use leaf_flow_chat.Domain.{Uuid}
use leaf_flow_chat.Ws.Manager.{
  WebSocket, WsOutbound, ConnectionManager, or_empty, sockets_of, send_all,
}
use leaf_flow_chat.Ws.Refinement.{Call, run}
use leaf_flow_chat.Ws.SetLoop.{
  SetIterator, Ending, returned, runtime_error, for_each_changed, for_each_first,
}
use leaf_flow_chat.Ws.Interleaved.{Sending, to_key, subscribers, clean_up, broadcast, begin}
use leaf_flow_chat.Ws.Interleaved.Walk.{during, send_each_lem}
use leaf_flow_chat.Ws.Interleaved.Keys.{Apart, to_key-Apart}

module _ {D : Type 0} (fails : WebSocket → Bool) (raw : WsOutbound D)
    (sockets : SetIterator WebSocket) (keys : SetIterator String) (c : Uuid)
    (m : ConnectionManager) where
  -- Where other tasks change the number of the conversation's subscribers during the sends to the
  -- sockets of the first one, and leave those sockets alone, the broadcast raises RuntimeError: what has arrived
  -- is what was sent to that first key, and no socket that failed is dropped.
  pub broadcast_disturbed :
      (key : String) (more : List String) (waits : List (List Call))
      → or_empty (get c m.subscriptions) ≡ key ∷ more
      → All (All (Apart key)) waits
      → let first = sockets_of key (or_empty (get key m.connections)) in
        let after = run (during (length first) waits) m in
        (length (or_empty (get c after.subscriptions)) == length (key ∷ more)) ≡ false
        → let (ending, end) = broadcast fails raw sockets keys c (begin m waits) in
          (ending ≡ runtime_error)
          × (end.arrived ≡ (send_all fails raw first).0)
          × (end.manager ≡ after)
  unfolding broadcast
  broadcast_disturbed key more waits subs apart changed =
      let s : Sending D = begin m waits in
      let first = sockets_of key (or_empty (get key m.connections)) in
      let sent =
        to_key-Apart fails raw sockets keys key s apart
        ∙ ap (λ t. (returned, t)) (send_each_lem fails raw first s) in
      let whole =
        for_each_first keys (subscribers fails raw sockets keys c) (to_key fails raw sockets keys)
          (or_empty (get c m.subscriptions)) key more s subs refl (ap (λ r. r.0) sent)
        ∙ for_each_changed keys (subscribers fails raw sockets keys c)
            (to_key fails raw sockets keys) (or_empty (get c m.subscriptions)) 1 (length more)
            (to_key fails raw sockets keys key s).1
            (ap
                (λ (r : Ending × Sending D).
                  length (or_empty (get c r.1.manager.subscriptions))
                  == length (or_empty (get c m.subscriptions)))
                sent
              ∙ ap
                  (λ l.
                    length (or_empty (get c (run (during (length first) waits) m).subscriptions))
                    == length l)
                  subs
              ∙ changed)
        ∙ ap (λ r. (runtime_error, r.1)) sent in
      (
        ap (λ r. (clean_up fails raw sockets keys r).0) whole,
        ap (λ r. (clean_up fails raw sockets keys r).1.arrived) whole,
        ap (λ r. (clean_up fails raw sockets keys r).1.manager) whole,
      )
