-- ===== src/Process/Lifespan/Ends.antt =====
-- What a lifespan has forwarded, and what it leaves.
use leaf_flow_chat.Prelude.{
  String, ◌≡◌, refl, ap, ◌∙◌, sym, Bool, true, false, not, Option, none, some, List, [], ◌∷◌, ◌++◌,
  any, inl, inr, Bool-cases, if◌then◌else◌, append_assoc, append-nil,
}
use leaf_flow_chat.Domain.{Uuid, Payload}
use leaf_flow_chat.Bus.Serializer.{Json}
use leaf_flow_chat.Bus.PubSub.{Notice, hear, listen}
use leaf_flow_chat.Ws.Manager.{WebSocket, WsOutbound, ConnectionManager}
use leaf_flow_chat.Ws.Refinement.{Call, run}
use leaf_flow_chat.Ws.Interleaved.Walk.{run-append}
use leaf_flow_chat.Process.Lifespan.{
  listening, failed, App, finished, raised, startup, begin_listen, shutdown, turn, turns, lifespan,
}

module _ ⦃json : Json⦄ where
  abbrev pub Turn : Type 0
  Turn = List Call × Option (Notice json.Raw)

  -- the listener raised in this turn
  abbrev pub is_lost : Turn → Bool
  is_lost (calls, none) = true
  is_lost (calls, some n) = false

  -- what was heard before the first loss
  abbrev pub before_loss : List Turn → List (List Call × Notice json.Raw)
  before_loss [] = []
  before_loss ((calls, none) ∷ rest) = []
  before_loss ((calls, some n) ∷ rest) = (calls, n) ∷ before_loss rest

  abbrev pub all_calls : List Turn → List Call
  all_calls [] = []
  all_calls ((calls, next) ∷ rest) = calls ++ all_calls rest

  -- the calls of other tasks from the loss on
  abbrev pub calls_after_loss : List Turn → List Call
  calls_after_loss [] = []
  calls_after_loss ((calls, none) ∷ rest) = calls ++ all_calls rest
  calls_after_loss ((calls, some n) ∷ rest) = calls_after_loss rest

  -- the app while the listener is in its loop, and after it has failed
  abbrev state : Bool → ConnectionManager → List (WebSocket × WsOutbound Payload) → App
  state lost m sent = record {
    redis_open = true;
    task = some (if lost then failed else listening);
    subscribed = not lost;
    manager = m;
    sent = sent;
  }

  module _ (parse_uuid : String → Option Uuid) (uuid_text : Uuid → String)
      (fails : WebSocket → Bool) where
    turns_deaf :
        (ts : List Turn) (m : ConnectionManager) (sent : List (WebSocket × WsOutbound Payload))
        → turns parse_uuid uuid_text fails ts (state true m sent)
          ≡ state true (run (all_calls ts) m) sent
    unfolding turns turn
    turns_deaf [] m sent = unfold run in refl
    turns_deaf ((calls, next) ∷ ts) m sent =
        turns_deaf ts (run calls m) sent
        ∙ ap (λ m'. state true m' sent) (sym (run-append calls (all_calls ts) m))

    turns_hear :
        (ts : List Turn) (m : ConnectionManager) (sent : List (WebSocket × WsOutbound Payload))
        → let heard = listen parse_uuid uuid_text fails (before_loss ts) m in
          turns parse_uuid uuid_text fails ts (state false m sent)
          ≡ state (any is_lost ts) (run (calls_after_loss ts) heard.1) (sent ++ heard.0)
    unfolding turns turn listen
    turns_hear [] m sent = unfold run in ap (state false m) (sym (append-nil sent))
    turns_hear ((calls, none) ∷ ts) m sent =
        turns_deaf ts (run calls m) sent
        ∙ ap (λ m'. state true m' sent) (sym (run-append calls (all_calls ts) m))
        ∙ ap (state true (run (calls ++ all_calls ts) m)) (sym (append-nil sent))
    turns_hear ((calls, some n) ∷ ts) m sent =
        let h = hear parse_uuid uuid_text fails n (run calls m) in
        turns_hear ts h.1 (sent ++ h.0)
        ∙ ap
            (state (any is_lost ts) (
              run (calls_after_loss ts) (listen parse_uuid uuid_text fails (before_loss ts) h.1).1))
            (append_assoc sent h.0 (listen parse_uuid uuid_text fails (before_loss ts) h.1).0)

    -- Where Redis accepts the subscription, a lifespan forwards exactly what is heard before the
    -- listener's first exception, and nothing after it; at its end no subscription is left, and it
    -- ends with Redis's connections closed exactly where the listener met no exception: else the
    -- shutdown raises that exception and leaves them open.
    pub lifespan_forwards :
        (ts : List Turn) (a : App)
        → let (exit, end) = lifespan parse_uuid uuid_text fails false ts a in
          let heard = listen parse_uuid uuid_text fails (before_loss ts) a.manager in
          let lost = any is_lost ts in
          (end.sent ≡ a.sent ++ heard.0)
          × (end.manager ≡ run (calls_after_loss ts) heard.1)
          × (end.subscribed ≡ false)
          × (exit ≡ (if lost then raised else finished))
          × (end.redis_open ≡ lost)
    unfolding lifespan shutdown startup begin_listen
    lifespan_forwards ts a =
        let e = turns_hear ts a.manager a.sent in
        elim (Bool-cases (any is_lost ts)) [
          | inl l ↦ rw e (rw l (refl, refl, refl, refl, refl))
          | inr l ↦ rw e (rw l (refl, refl, refl, refl, refl))
        ]
