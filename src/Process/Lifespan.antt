-- ===== src/Process/Lifespan.antt =====
-- `lifespan` of app.py around the task of `RedisPubSubSubscriber` (infrastructure/bus/redis_pubsub.py):
-- `start`, `_listen` and `stop`. An asyncio task that is cancelled raises CancelledError where it
-- waits, and `await` of a task that has ended raises its exception.
pub mod Ends
use leaf_flow_chat.Prelude.{String, Bool, true, false, Option, none, some, List, [], ◌∷◌, ◌++◌}
use leaf_flow_chat.Domain.{Uuid, Payload}
use leaf_flow_chat.Bus.Serializer.{Json}
use leaf_flow_chat.Bus.PubSub.{Notice, Relayed, hear}
use leaf_flow_chat.Ws.Manager.{WebSocket, WsOutbound, ConnectionManager}
use leaf_flow_chat.Ws.Refinement.{Call, run}

-- The task of `_listen`: not begun, in its loop, ended by an exception of its own, or cancelled.
pub data Task : Type 0 where
  created listening failed cancelled : Task

-- `app.state` with its subscriber, the subscription that Redis keeps for it, the manager of ws.py
-- and what the listener has sent out
pub record App : Type 0 where
  pub redis_open : Bool
  pub task : Option Task
  pub subscribed : Bool
  pub manager : ConnectionManager
  pub sent : List (WebSocket × WsOutbound Payload)

-- how a call ended
pub data Exit : Type 0 where
  finished raised : Exit

-- `subscriber.start()`
unfoldable pub start : App → App
start a = record a { task = some created }

-- the part of `lifespan` before its `yield`
unfoldable pub startup : App → App
unfolding start
startup a = start (record a { redis_open = true })

-- The beginning of `_listen`: `pubsub.subscribe` before the `try:`, which Redis refuses or not.
abbrev pub subscribing : Bool → Option Task → App → App
subscribing true (some created) a = record a { task = some failed }
subscribing false (some created) a = record a { task = some listening; subscribed = true }
subscribing refused (some listening) a = a
subscribing refused (some failed) a = a
subscribing refused (some cancelled) a = a
subscribing refused none a = a

unfoldable pub begin_listen : Bool → App → App
begin_listen refused a = subscribing refused a.task a

-- `self._task.cancel()` and the `await` of it, by what the task is
abbrev pub stop_task : Option Task → App → Exit × App
stop_task none a = (finished, a)
stop_task (some created) a = (finished, record a { task = some cancelled })
stop_task (some listening) a = (finished, record a { task = some cancelled; subscribed = false })
stop_task (some failed) a = (raised, a)
stop_task (some cancelled) a = (finished, a)

-- `subscriber.stop()`
unfoldable pub stop : App → Exit × App
stop a = stop_task a.task a

abbrev pub close_redis : Exit × App → Exit × App
close_redis (finished, a) = (finished, record a { redis_open = false })
close_redis (raised, a) = (raised, a)

-- the part of `lifespan` after its `yield`
unfoldable pub shutdown : App → Exit × App
unfolding stop
shutdown a = close_redis (stop a)

module _ ⦃json : Json⦄ (parse_uuid : String → Option Uuid) (uuid_text : Uuid → String)
    (fails : WebSocket → Bool) where
  abbrev pub relay : Relayed → App → App
  relay (sent, m) a = record a { manager = m; sent = a.sent ++ sent }

  -- What `pubsub.listen()` yields, or that it raises; then the `finally:` of `_listen` ends the
  -- subscription.
  abbrev pub on_next : Option Task → Option (Notice json.Raw) → App → App
  on_next (some listening) (some notice) a =
      relay (hear parse_uuid uuid_text fails notice a.manager) a
  on_next (some listening) none a = record a { task = some failed; subscribed = false }
  on_next (some created) next a = a
  on_next (some failed) next a = a
  on_next (some cancelled) next a = a
  on_next none next a = a

  -- the calls of other tasks, and the listener's next turn
  unfoldable pub turn : List Call × Option (Notice json.Raw) → App → App
  turn (calls, next) a = on_next a.task next (record a { manager = run calls a.manager })

  unfoldable pub turns : List (List Call × Option (Notice json.Raw)) → App → App
  turns [] a = a
  turns (t ∷ rest) a = turns rest (turn t a)

  -- the whole of `lifespan`
  unfoldable pub lifespan : Bool → List (List Call × Option (Notice json.Raw)) → App → Exit × App
  lifespan refused ts a = shutdown (turns ts (begin_listen refused (startup a)))
