-- ===== src/Ws/Interleaved/Keys.antt =====
-- The loop over the sockets of one key, while no other task opens or closes one of them.
use leaf_flow_chat.Prelude.{
  String, ◌≡◌, refl, ap, ◌∙◌, Bool, false, Option, none, some, List, [], ◌∷◌, arith, All, str_eq,
}
use leaf_flow_chat.Prelude.Dict.{get, string_eq}
use leaf_flow_chat.Ws.Manager.{WebSocket, WsOutbound, or_empty, sockets_of}
use leaf_flow_chat.Ws.Refinement.{Call, opens, closes, enters, leaves}
use leaf_flow_chat.Ws.SetLoop.{SetIterator, Ending, returned, each, for_each_unchanged}
use leaf_flow_chat.Ws.Interleaved.{
  Sending, Held, held, affect, affect_all, next_calls, later_waits, send, to_socket, held_sockets,
  to_key,
}
use leaf_flow_chat.Ws.Interleaved.Walk.{send_each}

-- The call leaves the sockets of the key alone.
abbrev pub Apart : String → Call → Type 0
Apart pkey (opens ws key) = str_eq key pkey ≡ false
Apart pkey (closes ws key) = str_eq key pkey ≡ false
Apart pkey (enters key c) = Unit
Apart pkey (leaves key c) = Unit

affect-Apart : (pkey : String) (call : Call) (h : Held) → Apart pkey call → affect pkey call h ≡ h
affect-Apart pkey (opens ws key) h a = ground arith
affect-Apart pkey (closes ws key) h a = ground arith
affect-Apart pkey (enters key c) h a = refl
affect-Apart pkey (leaves key c) h a = refl

affect_all-Apart :
    (pkey : String) (calls : List Call) (h : Held)
    → All (Apart pkey) calls
    → affect_all pkey calls h ≡ h
unfolding affect_all
affect_all-Apart pkey [] h a = refl
affect_all-Apart pkey (call ∷ calls) h a =
    ap (affect_all pkey calls) (affect-Apart pkey call h a.0) ∙ affect_all-Apart pkey calls h a.1

pub All-next_calls :
    (P : Call → Type 0) (waits : List (List Call)) → All (All P) waits → All P (next_calls waits)
All-next_calls P [] h = tt
All-next_calls P (calls ∷ rest) h = h.0

pub All-later_waits :
    (P : Call → Type 0) (waits : List (List Call))
    → All (All P) waits
    → All (All P) (later_waits waits)
All-later_waits P [] h = tt
All-later_waits P (calls ∷ rest) h = h.1

All-Unit {ℓ} : {A : Type ℓ} (xs : List A) → All (λ (x : A). Unit {0}) xs
All-Unit [] = tt
All-Unit (x ∷ xs) = (tt, All-Unit xs)

held-sockets : (o : Option (List WebSocket)) → (held o).sockets ≡ or_empty o
held-sockets none = refl
held-sockets (some xs) = refl

module _ {D : Type 0} (fails : WebSocket → Bool) (raw : WsOutbound D)
    (sockets : SetIterator WebSocket) (keys : SetIterator String) (pkey : String) where
  each-to_socket :
      (start xs : List WebSocket) (h : Held) (s : Sending D)
      → (each sockets
          (held_sockets fails raw sockets keys)
          (to_socket fails raw sockets keys pkey)
          start
          xs
          (h, s)).1
        ≡ send_each fails raw (sockets_of pkey xs) s
  unfolding each send_each
  each-to_socket start [] h s = refl
  each-to_socket start (x ∷ xs) h s = each-to_socket start xs _ (send fails raw pkey x s)

  -- The sockets held when the loop begins, and awaits that leave them alone.
  abbrev Holding : List WebSocket → Held × Sending D → Type 0
  Holding start (h, s) = (h.sockets ≡ start) × All (All (Apart pkey)) s.waits

  to_socket-Holding :
      (start : List WebSocket) (x : WebSocket) (p : Held × Sending D)
      → Holding start p
      → Holding start (to_socket fails raw sockets keys pkey x p).1
  unfolding send
  to_socket-Holding start x (h, s) (e, a) = (
    ap (λ (g : Held). g.sockets)
          (affect_all-Apart pkey (next_calls s.waits) h (All-next_calls (Apart pkey) s.waits a))
        ∙ e,
    All-later_waits (Apart pkey) s.waits a,
  )

  -- The loop sends to each socket that it began with, and raises nothing.
  pub to_key-Apart :
      (s : Sending D)
      → All (All (Apart pkey)) s.waits
      → to_key fails raw sockets keys pkey s ≡ (
        returned,
        send_each fails raw (sockets_of pkey (or_empty (get pkey s.manager.connections))) s,
      )
  unfolding to_key
  to_key-Apart s a =
      let h = held (get pkey s.manager.connections) in
      let whole =
        for_each_unchanged sockets (held_sockets fails raw sockets keys)
          (to_socket fails raw sockets keys pkey) h.sockets (Holding h.sockets) (λ x. Unit {0})
          (λ p holding. holding.0)
          (λ x p u holding. (refl, to_socket-Holding h.sockets x p holding)) (h, s)
          (All-Unit h.sockets) (refl, a) in
      ap (λ (r : Ending × (Held × Sending D)). (r.0, r.1.1)) whole.0
      ∙ ap (λ t. (returned, t))
          (each-to_socket h.sockets h.sockets h s
            ∙ ap (λ xs. send_each fails raw (sockets_of pkey xs) s)
                (held-sockets (get pkey s.manager.connections)))
