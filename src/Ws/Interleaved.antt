-- ===== src/Ws/Interleaved.antt =====
-- `broadcast_to_conversation` of infrastructure/ws/manager.py with what other tasks do to the
-- manager while it awaits a `send_text`: one list of calls for each await, none where the list of
-- lists has ended.
pub mod Walk
pub mod Keys
pub mod Elsewhere
pub mod Undisturbed
pub mod Disturbed
use leaf_flow_chat.Prelude.{
  ℕ, String, Bool, true, false, Option, none, some, List, [], ◌∷◌, ◌++◌, ◌&&◌, str_eq, length,
  if◌then◌else◌,
}
use leaf_flow_chat.Prelude.Dict.{get, add, discard, nat_eq, string_eq}
use leaf_flow_chat.Domain.{Uuid}
use leaf_flow_chat.Ws.Manager.{WebSocket, WsOutbound, ConnectionManager, or_empty, disconnect_all}
use leaf_flow_chat.Ws.Refinement.{Call, opens, closes, enters, leaves, run}
use leaf_flow_chat.Ws.SetLoop.{SetIterator, Ending, returned, runtime_error, for_each}

-- The broadcast under way: the manager, the awaits to come, what has arrived, and the list `dead`.
pub record Sending (D : Type 0) : Type 0 where
  pub manager : ConnectionManager
  pub waits : List (List Call)
  pub arrived : List (WebSocket × WsOutbound D)
  pub dead : List (String × WebSocket)

-- A set of sockets that a loop holds. `listed` says that the dictionary has this set: `del` takes
-- it from the dictionary and leaves it to the loop.
pub record Held : Type 0 where
  pub sockets : List WebSocket
  pub listed : Bool

abbrev pub after_discard : List WebSocket → Held
after_discard [] = record { sockets = []; listed = false }
after_discard (x ∷ xs) = record { sockets = x ∷ xs; listed = true }

-- what a call of another task does to the set
abbrev pub affect : String → Call → Held → Held
affect pkey (opens ws key) h =
    if h.listed && str_eq key pkey then record h { sockets = add ws h.sockets } else h
affect pkey (closes ws key) h =
    if h.listed && str_eq key pkey then after_discard (discard ws h.sockets) else h
affect pkey (enters key c) h = h
affect pkey (leaves key c) h = h

unfoldable pub affect_all : String → List Call → Held → Held
affect_all pkey [] h = h
affect_all pkey (call ∷ calls) h = affect_all pkey calls (affect pkey call h)

-- `self._connections.get(pkey, set())`
abbrev pub held : Option (List WebSocket) → Held
held none = record { sockets = []; listed = false }
held (some xs) = record { sockets = xs; listed = true }

abbrev pub next_calls : List (List Call) → List Call
next_calls [] = []
next_calls (calls ∷ rest) = calls

abbrev pub later_waits : List (List Call) → List (List Call)
later_waits [] = []
later_waits (calls ∷ rest) = rest

module _ {D : Type 0} (fails : WebSocket → Bool) (raw : WsOutbound D) where
  -- `await ws.send_text(raw)` under its `try:`
  unfoldable pub send : String → WebSocket → Sending D → Sending D
  send pkey ws s = record {
    manager = run (next_calls s.waits) s.manager;
    waits = later_waits s.waits;
    arrived = if fails ws then s.arrived else s.arrived ++ (ws, raw) ∷ [];
    dead = if fails ws then s.dead ++ (pkey, ws) ∷ [] else s.dead;
  }

  module _ (sockets : SetIterator WebSocket) (keys : SetIterator String) where
    -- one round of `for ws in …`
    abbrev pub to_socket : String → WebSocket → Held × Sending D → Ending × (Held × Sending D)
    to_socket pkey ws (h, s) = (returned, (affect_all pkey (next_calls s.waits) h, send pkey ws s))

    abbrev pub held_sockets : Held × Sending D → List WebSocket
    held_sockets (h, s) = h.sockets

    -- one round of `for pkey in subs`
    unfoldable pub to_key : String → Sending D → Ending × Sending D
    to_key pkey s =
        let h = held (get pkey s.manager.connections) in
        let (ending, (h', s')) =
          for_each sockets held_sockets (to_socket pkey) h.sockets 0 (length h.sockets) (h, s) in
        (ending, s')

    abbrev pub subscribers : Uuid → Sending D → List String
    subscribers c s = or_empty (get c s.manager.subscriptions)

    -- the loop over `dead`, where nothing was raised
    abbrev pub clean_up : Ending × Sending D → Ending × Sending D
    clean_up (returned, s) = (returned, record s { manager = disconnect_all s.dead s.manager })
    clean_up (runtime_error, s) = (runtime_error, s)

    unfoldable pub broadcast : Uuid → Sending D → Ending × Sending D
    broadcast c s =
        let subs = subscribers c s in
        clean_up (for_each keys (subscribers c) to_key subs 0 (length subs) s)

-- a broadcast that begins
abbrev pub begin : {D : Type 0} → ConnectionManager → List (List Call) → Sending D
begin m waits = record { manager = m; waits = waits; arrived = []; dead = [] }
