-- ===== src/Auth/Entrance.antt =====
-- `get_current_principal` of api/deps.py, and `_authenticate` of ws.py with the whole of `ws_chat`.
use leaf_flow_chat.Prelude.{ℕ, String, ◌≡◌, Bool, Option, none, some, List}
use leaf_flow_chat.Errors.{Result, ok, err}
use leaf_flow_chat.Principal.{Principal}
use leaf_flow_chat.Settings.{Settings}
use leaf_flow_chat.Sql.{Sql}
use leaf_flow_chat.Api.{Response, success, failure, status_of}
use leaf_flow_chat.Domain.{Uuid}
use leaf_flow_chat.Auth.{Jwt, Verifier, get_verifier, verify}
use leaf_flow_chat.Ws.Manager.{WebSocket}
use leaf_flow_chat.Ws.Endpoint.{Hub, WsInbound, ws_chat}

abbrev pub or_401 : Option Principal → Response Principal
or_401 none = failure 401
or_401 (some p) = success p

pub or_401-success : (o : Option Principal) (p : Principal) → or_401 o ≡ success p → o ≡ some p
or_401-success none p h = absurd (cc h)
or_401-success (some q) p h = cc h

module _ (parse_int : String → Option ℕ) ⦃jwt : Jwt⦄ where
  -- The assertion of `_get_verifier` is outside of the `try:`.
  abbrev pub principal_or_failure : Result Verifier → String → Response Principal
  principal_or_failure (err e) token = failure (status_of e)
  principal_or_failure (ok verifier) token = or_401 (verify parse_int verifier token)

  -- from the bearer token of the request
  unfoldable pub get_current_principal : Settings → String → Response Principal
  get_current_principal settings token = principal_or_failure (get_verifier settings) token

  abbrev pub principal_or_none : Result Verifier → String → Option Principal
  principal_or_none (err e) token = none
  principal_or_none (ok verifier) token = verify parse_int verifier token

  unfoldable pub authenticate : Settings → String → Option Principal
  authenticate settings token = principal_or_none (get_verifier settings) token

  module _ ⦃sql : Sql⦄ (parse_uuid : String → Option Uuid) (fails : WebSocket → Bool) where
    -- `websocket.close(code=4001)` of a socket that was never accepted
    abbrev pub chat_as : Option Principal → WebSocket → List WsInbound → Hub → Hub
    chat_as none ws inbounds hub = hub
    chat_as (some principal) ws inbounds hub = ws_chat parse_uuid fails ws principal inbounds hub

    -- the whole of `ws_chat`
    unfoldable pub connect_with : Settings → String → WebSocket → List WsInbound → Hub → Hub
    connect_with settings token ws inbounds hub =
        chat_as (authenticate settings token) ws inbounds hub
