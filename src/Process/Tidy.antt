-- ===== src/Process/Tidy.antt =====
-- The manager holds sockets and subscriptions of live connections alone, however they interleave.
use leaf_flow_chat.Prelude.{
  ℕ, String, ◌≡◌, sym, ap, ◌∙◌, subst, Bool, true, Option, List, ◌∷◌, ◌++◌, arith, eq_iff,
}
use leaf_flow_chat.Domain.{Uuid}
use leaf_flow_chat.Principal.{Principal, principal_key}
use leaf_flow_chat.Settings.{Settings}
use leaf_flow_chat.Sql.{Sql}
use leaf_flow_chat.Auth.{Jwt}
use leaf_flow_chat.Db.Valid.{IsValid}
use leaf_flow_chat.Services.Validity.{Step-IsValid}
use leaf_flow_chat.Bus.Serializer.{Json}
use leaf_flow_chat.Bus.Heard.{hear_ind}
use leaf_flow_chat.Ws.Manager.{WebSocket, init}
use leaf_flow_chat.Ws.Registry.{connected, subscribed}
use leaf_flow_chat.Ws.Endpoint.{Hub, WsInbound, on_message}
use leaf_flow_chat.Ws.Endpoint.Effects.{on_message-IsValid}
use leaf_flow_chat.Ws.Endpoint.Registers.{on_message_ind}
use leaf_flow_chat.Process.Belongs.{
  has_key, is_present, is_live, Belongs, init-Belongs, any-middle, connect-Belongs,
  subscribe-Belongs, broadcast-Belongs, disconnect-Belongs,
}
use leaf_flow_chat.Process.{
  Process, open_socket, close_socket, Step, opens, handles, breaks, closes, hears, writes, Reach,
  here, next,
}

module _ ⦃sql : Sql⦄ ⦃json : Json⦄ ⦃jwt : Jwt⦄ (settings : Settings) (parse_int : String → Option ℕ)
    (parse_uuid : String → Option Uuid) (uuid_text : Uuid → String) (fails : WebSocket → Bool) where
  record IsTidy (s : Process) : Type 0 where
    pub valid : IsValid s.hub.session.committed
    pub owned : Belongs s.live s.hub.manager

  there :
      (s : Process) (ws : WebSocket) (p : Principal) (before after : List (WebSocket × Principal))
      → s.live ≡ before ++ (ws, p) ∷ after
      → is_present s.live (principal_key p) ≡ true
  there s ws p before after is =
      ap (λ l. is_present l (principal_key p)) is
      ∙ ground (
        arith,
        any-middle (has_key (principal_key p)) before after (ws, p),
        eq_iff (principal_key p) (principal_key p),
      )

  on_message-IsTidy :
      (s : Process) (ws : WebSocket) (p : Principal) (m : WsInbound)
      → is_present s.live (principal_key p) ≡ true
      → IsTidy s
      → IsTidy (record s { hub = (on_message parse_uuid fails ws p m s.hub).hub })
  on_message-IsTidy s ws p m present h = record {
    valid = on_message-IsValid parse_uuid fails ws p m s.hub h.valid;
    owned =
        on_message_ind parse_uuid fails ws p (Belongs s.live) s.hub h.owned
          (λ c. subscribe-Belongs s.live s.hub.manager h.owned p c present)
          (broadcast-Belongs s.live s.hub.manager h.owned fails) m;
  }

  close_socket-IsTidy :
      (hub : Hub) (ws : WebSocket) (p : Principal) (before after : List (WebSocket × Principal))
      → IsTidy (record { hub = hub; live = before ++ (ws, p) ∷ after })
      → IsTidy (record { hub = close_socket ws p hub; live = before ++ after })
  unfolding close_socket
  close_socket-IsTidy hub ws p before after h = record {
    valid = h.valid;
    owned = disconnect-Belongs before after ws p hub.manager h.owned;
  }

  at_live :
      (hub : Hub) (live live' : List (WebSocket × Principal))
      → live ≡ live'
      → IsTidy (record { hub = hub; live = live })
      → IsTidy (record { hub = hub; live = live' })
  at_live hub live live' is h = subst (λ l. IsTidy (record { hub = hub; live = l })) is h

  Step-IsTidy :
      {s t : Process} → Step settings parse_int parse_uuid uuid_text fails s t → IsTidy s → IsTidy t
  unfolding open_socket
  Step-IsTidy {s} (opens ws token p accepted) h = record {
    valid = h.valid;
    owned = connect-Belongs s.live s.hub.manager h.owned ws p;
  }
  Step-IsTidy {s} (handles ws p m before after is alive) h =
      on_message-IsTidy s ws p m (there s ws p before after is) h
  Step-IsTidy {s} (breaks ws p m before after is broken) h =
      close_socket-IsTidy (on_message parse_uuid fails ws p m s.hub).hub ws p before after (
        at_live (on_message parse_uuid fails ws p m s.hub).hub s.live (before ++ (ws, p) ∷ after) is
          (on_message-IsTidy s ws p m (there s ws p before after is) h))
  Step-IsTidy {s} (closes ws p before after is) h =
      close_socket-IsTidy s.hub ws p before after
        (at_live s.hub s.live (before ++ (ws, p) ∷ after) is h)
  Step-IsTidy {s} (hears n) h = record {
    valid = h.valid;
    owned =
        hear_ind parse_uuid uuid_text fails (Belongs s.live) s.hub.manager h.owned
          (broadcast-Belongs s.live s.hub.manager h.owned fails) n;
  }
  Step-IsTidy {s} (writes step) h = record { valid = Step-IsValid step h.valid; owned = h.owned }

  Reach-IsTidy :
      {s t : Process}
      → Reach settings parse_int parse_uuid uuid_text fails s t
      → IsTidy s
      → IsTidy t
  Reach-IsTidy here h = h
  Reach-IsTidy (next r step) h = Step-IsTidy step (Reach-IsTidy r h)

  -- A process begins with an empty manager and a valid database. However its connections, the
  -- listener and the database's other users interleave, the database is valid, each registered
  -- socket is one of a live connection under that connection's key, and each subscribed key is one
  -- of a live connection.
  pub process_holds_live :
      (s t : Process)
      → s.hub.manager ≡ init
      → IsValid s.hub.session.committed
      → Reach settings parse_int parse_uuid uuid_text fails s t
      → IsValid t.hub.session.committed
        × ((k : String) (x : WebSocket)
            → connected t.hub.manager k x ≡ true
            → is_live t.live k x ≡ true)
        × ((c : Uuid) (k : String)
            → subscribed t.hub.manager c k ≡ true
            → is_present t.live k ≡ true)
  process_holds_live s t empty v reach =
      let end =
        Reach-IsTidy reach (record {
          valid = v;
          owned = subst (Belongs s.live) (sym empty) (init-Belongs s.live);
        }) in
      (end.valid, end.owned.sockets, end.owned.keys)
