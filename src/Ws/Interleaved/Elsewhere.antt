-- ===== src/Ws/Interleaved/Elsewhere.antt =====
-- Calls of other tasks that keep away from a conversation, and what a broadcast to it reads.
use mathlib.Core.Option
use leaf_flow_chat.Prelude.{
  String, ◌≡◌, refl, ap, ◌∙◌, true, false, Option, none, some, List, [], ◌∷◌, ◌==◌, arith, All,
  str_eq, eq_iff,
}
use leaf_flow_chat.Prelude.Dict.{
  Dict, get, get-put, get-remove, get-map_values, contains, discard, discard-absent, nat_eq,
  string_eq,
}
use leaf_flow_chat.Domain.{Uuid}
use leaf_flow_chat.Ws.Manager.{
  WebSocket, ConnectionManager, connect, disconnect, subscribe, unsubscribe, or_empty,
  forget_socket, drop_socket, drop_subscriber,
}
use leaf_flow_chat.Ws.Refinement.{Call, opens, closes, enters, leaves, run}
use leaf_flow_chat.Ws.Interleaved.Keys.{Apart}

-- The call is about other conversations, and about sockets of keys that are not among these.
abbrev pub Elsewhere : Uuid → List String → Call → Type 0
Elsewhere c subs (opens ws key) = contains subs key ≡ false
Elsewhere c subs (closes ws key) = contains subs key ≡ false
Elsewhere c subs (enters key d) = (d == c) ≡ false
Elsewhere c subs (leaves key d) = (d == c) ≡ false

or_empty-discard :
    (key : String) (o : Option (List String))
    → contains (or_empty o) key ≡ false
    → or_empty (Option.map (discard key) o) ≡ or_empty o
or_empty-discard key none h = refl
or_empty-discard key (some xs) h = discard-absent key xs h

-- another key's entry
get-forget_socket :
    (ws : WebSocket) (key k : String) (o : Option (List WebSocket))
    (d : Dict String (List WebSocket))
    → str_eq key k ≡ false
    → get k (forget_socket ws key o d) ≡ get k d
get-forget_socket ws key k none d h = refl
get-forget_socket ws key k (some []) d h = refl
get-forget_socket ws key k (some (x ∷ xs)) d h = dropped (discard ws (x ∷ xs))
  where
    dropped : (ys : List WebSocket) → get k (drop_socket ws key ys d) ≡ get k d
    dropped [] = rw get-remove (ground arith)
    dropped (y ∷ ys) = rw get-put (ground arith)

get-drop_subscriber :
    (key : String) (d c : Uuid) (o : Option (List String)) (subs : Dict Uuid (List String))
    → (d == c) ≡ false
    → get c (drop_subscriber key d o subs) ≡ get c subs
get-drop_subscriber key d c none subs h = refl
get-drop_subscriber key d c (some []) subs h = refl
get-drop_subscriber key d c (some (x ∷ xs)) subs h = rw get-put (ground arith)

key-differs :
    (subs : List String) (key k : String)
    → contains subs key ≡ false
    → contains subs k ≡ true
    → str_eq key k ≡ false
key-differs [] key k absent there = absurd (cc there)
key-differs (x ∷ xs) key k absent there =
    ground (arith, eq_iff key k, eq_iff x key, eq_iff x k, key-differs xs key k)

module _ (c : Uuid) (subs : List String) where
  pub Elsewhere-Apart :
      (k : String) (call : Call) → contains subs k ≡ true → Elsewhere c subs call → Apart k call
  Elsewhere-Apart k (opens ws key) there away = key-differs subs key k away there
  Elsewhere-Apart k (closes ws key) there away = key-differs subs key k away there
  Elsewhere-Apart k (enters key d) there away = tt
  Elsewhere-Apart k (leaves key d) there away = tt

  -- What the broadcast reads of the manager.
  pub record Reads (m m' : ConnectionManager) : Type 0 where
    pub same_subs : or_empty (get c m'.subscriptions) ≡ or_empty (get c m.subscriptions)
    pub same_sockets :
        (k : String) → contains subs k ≡ true → get k m'.connections ≡ get k m.connections

  -- After a first call, the others.
  goes_on :
      (calls : List Call) (m m' : ConnectionManager)
      → or_empty (get c m.subscriptions) ≡ subs
      → All (Elsewhere c subs) calls
      → Reads m m'
      → (or_empty (get c m'.subscriptions) ≡ subs
          → All (Elsewhere c subs) calls
          → Reads m' (run calls m'))
      → Reads m (run calls m')
  goes_on calls m m' e away first rest =
      let others = rest (first.same_subs ∙ e) away in
      record {
        same_subs = others.same_subs ∙ first.same_subs;
        same_sockets = λ k there. others.same_sockets k there ∙ first.same_sockets k there;
      }

  pub run-Reads :
      (calls : List Call) (m : ConnectionManager)
      → or_empty (get c m.subscriptions) ≡ subs
      → All (Elsewhere c subs) calls
      → Reads m (run calls m)
  unfolding run
  run-Reads [] m e away = record { same_subs = refl; same_sockets = λ k there. refl }
  run-Reads (opens ws key ∷ calls) m e away =
      goes_on calls m (connect ws key m) e away.1
        (record {
          same_subs = unfold connect in refl;
          same_sockets = λ k there.
              unfold connect in
              get-put key k _ m.connections ∙ ground (arith, key-differs subs key k);
        })
        (run-Reads calls (connect ws key m))
  run-Reads (closes ws key ∷ calls) m e away =
      goes_on calls m (disconnect ws key m) e away.1
        (record {
          same_subs =
              unfold disconnect in
              ap or_empty (get-map_values (discard key) c m.subscriptions)
              ∙ or_empty-discard key (get c m.subscriptions)
                  (ap (λ xs. contains xs key) e ∙ away.0);
          same_sockets = λ k there.
              unfold disconnect in
              get-forget_socket ws key k (get key m.connections) m.connections
                (key-differs subs key k away.0 there);
        })
        (run-Reads calls (disconnect ws key m))
  run-Reads (enters key d ∷ calls) m e away =
      goes_on calls m (subscribe key d m) e away.1
        (record {
          same_subs =
              unfold subscribe in
              ap or_empty {y = get c m.subscriptions}
                (get-put d c _ m.subscriptions ∙ ground (arith, away.0));
          same_sockets = λ k there. unfold subscribe in refl;
        })
        (run-Reads calls (subscribe key d m))
  run-Reads (leaves key d ∷ calls) m e away =
      goes_on calls m (unsubscribe key d m) e away.1
        (record {
          same_subs =
              unfold unsubscribe in
              ap or_empty
                (get-drop_subscriber key d c (get d m.subscriptions) m.subscriptions away.0);
          same_sockets = λ k there. unfold unsubscribe in refl;
        })
        (run-Reads calls (unsubscribe key d m))
