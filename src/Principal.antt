-- ===== src/Principal.antt =====
-- application/dto/principal.py
use leaf_flow_chat.Prelude.{String, ◌<>◌, Bool, true, false, ◌||◌, List, any, str_eq, str_int}
use leaf_flow_chat.Domain.{SubjectId, ParticipantKind, user, admin, kind_value}

pub record Principal : Type 0 where
  pub kind : ParticipantKind
  pub subject_id : SubjectId
  pub roles : List String

abbrev pub is_admin_kind : ParticipantKind → Bool
is_admin_kind user = false
is_admin_kind admin = true

unfoldable pub is_admin : Principal → Bool
is_admin p = is_admin_kind p.kind || any (λ role. str_eq role "admin") p.roles

-- The key of a connection registry: `f"{self.kind}:{self.subject_id}"`.
unfoldable pub principal_key : Principal → String
principal_key p = kind_value p.kind <> ":" <> str_int p.subject_id
