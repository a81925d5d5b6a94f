-- ===== src/Auth/Connection.antt =====
-- What a connection with a token leaves.
use leaf_flow_chat.Prelude.{
  ℕ, String, ◌≡◌, refl, Bool, false, Option, none, some, List, inl, inr, Option-cases, subst,
}
use leaf_flow_chat.Principal.{Principal, principal_key}
use leaf_flow_chat.Settings.{Settings}
use leaf_flow_chat.Sql.{Sql}
use leaf_flow_chat.Domain.{Uuid}
use leaf_flow_chat.Auth.{Jwt}
use leaf_flow_chat.Ws.Manager.{WebSocket}
use leaf_flow_chat.Ws.Endpoint.{Hub, WsInbound, ws_chat}
use leaf_flow_chat.Ws.Endpoint.Effects.{ws_chat_leaves}
use leaf_flow_chat.Ws.Registry.{connected, subscribed}
use leaf_flow_chat.Db.Valid.{IsValid}
use leaf_flow_chat.Auth.Entrance.{authenticate, connect_with}

module _ (parse_int : String → Option ℕ) ⦃jwt : Jwt⦄ where
  -- A connection keeps a valid database valid; it leaves everything as it was where the token is
  -- refused, and otherwise neither its socket registered nor its key subscribed.
  pub connect_with_leaves :
      ⦃sql : Sql⦄ (parse_uuid : String → Option Uuid) (fails : WebSocket → Bool)
      (settings : Settings) (token : String) (ws : WebSocket) (ms : List WsInbound) (hub : Hub)
      → IsValid hub.session.committed
      → let end = connect_with parse_int parse_uuid fails settings token ws ms hub in
        IsValid end.session.committed
        × (authenticate parse_int settings token ≡ none → end ≡ hub)
        × ((p : Principal)
            → authenticate parse_int settings token ≡ some p
            → (connected end.manager (principal_key p) ws ≡ false)
              × ((c : Uuid) → subscribed end.manager c (principal_key p) ≡ false))
  unfolding connect_with
  connect_with_leaves parse_uuid fails settings token ws ms hub v =
      elim (Option-cases (authenticate parse_int settings token)) [
        | inl e ↦ rw e (v, λ h. refl, λ p h. absurd (cc h))
        | inr (q, e) ↦
            let left = ws_chat_leaves parse_uuid fails ws q ms hub v in
            rw e (
              left.0,
              λ h. absurd (cc h),
              λ p h.
                  let same : q ≡ p = cc h in
                  subst
                    (λ (r : Principal).
                      (connected (ws_chat parse_uuid fails ws q ms hub).manager (principal_key r) ws
                        ≡ false)
                      × ((c : Uuid)
                          → subscribed (ws_chat parse_uuid fails ws q ms hub).manager c
                              (principal_key r)
                            ≡ false))
                    same (left.1, left.2),
            )
      ]
