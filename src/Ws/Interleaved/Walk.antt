-- ===== src/Ws/Interleaved/Walk.antt =====
-- Sends one after the other, with what other tasks do between them.
use leaf_flow_chat.Prelude.{
  ℕ, zero, suc, String, ◌≡◌, refl, ◌∙◌, Bool, List, [], ◌∷◌, ◌++◌, length, arith, append_assoc,
  append-nil,
}
use leaf_flow_chat.Ws.Manager.{WebSocket, WsOutbound, ConnectionManager, send_all}
use leaf_flow_chat.Ws.Refinement.{Call, opens, closes, enters, leaves, run}
use leaf_flow_chat.Ws.Interleaved.{Sending, next_calls, later_waits, send}

-- the calls of other tasks during so many awaits
abbrev pub during : ℕ → List (List Call) → List Call
during zero waits = []
during (suc n) waits = next_calls waits ++ during n (later_waits waits)

abbrev pub left_after : ℕ → List (List Call) → List (List Call)
left_after zero waits = waits
left_after (suc n) waits = left_after n (later_waits waits)

pub run-append : (a b : List Call) (m : ConnectionManager) → run (a ++ b) m ≡ run b (run a m)
unfolding run
run-append [] b m = refl
run-append (opens ws key ∷ a) b m = run-append a b _
run-append (closes ws key ∷ a) b m = run-append a b _
run-append (enters key c ∷ a) b m = run-append a b _
run-append (leaves key c ∷ a) b m = run-append a b _

pub during-nil : (n : ℕ) → during n [] ≡ []
during-nil zero = refl
during-nil (suc n) = during-nil n

module _ {D : Type 0} (fails : WebSocket → Bool) (raw : WsOutbound D) where
  unfoldable pub send_each : List (String × WebSocket) → Sending D → Sending D
  send_each [] s = s
  send_each ((key, ws) ∷ l) s = send_each l (send fails raw key ws s)

  pub send_each-append :
      (a b : List (String × WebSocket)) (s : Sending D)
      → send_each (a ++ b) s ≡ send_each b (send_each a s)
  unfolding send_each
  send_each-append [] b s = refl
  send_each-append ((key, ws) ∷ a) b s = send_each-append a b _

  -- What they come to: as one uninterrupted loop, after the calls of the others.
  pub send_each_lem :
      (l : List (String × WebSocket)) (s : Sending D)
      → send_each l s ≡ record {
        manager = run (during (length l) s.waits) s.manager;
        waits = left_after (length l) s.waits;
        arrived = s.arrived ++ (send_all fails raw l).0;
        dead = s.dead ++ (send_all fails raw l).1;
      }
  unfolding send_each send_all run
  send_each_lem [] s = ground (arith, append-nil s.arrived, append-nil s.dead)
  send_each_lem ((key, ws) ∷ l) s =
      send_each_lem l (send fails raw key ws s)
      ∙ unfold send in
        ground (
          arith,
          run-append (next_calls s.waits) (during (length l) (later_waits s.waits)) s.manager,
          append_assoc s.arrived ((ws, raw) ∷ []) (send_all fails raw l).0,
          append_assoc s.dead ((key, ws) ∷ []) (send_all fails raw l).1,
        )
