-- ===== src/Tests/Tokens.antt =====
-- Tokens that are their own claims' text.
use leaf_flow_chat.Prelude.{
  String, ℕ, ◌≡◌, ◌↔◌, ◌⊎◌, refl, Bool, true, false, Option, none, some, [], any, str_eq,
  if◌then◌else◌,
}
use leaf_flow_chat.Domain.{Uuid, admin}
use leaf_flow_chat.Errors.{err, assertion_error}
use leaf_flow_chat.Principal.{Principal, principal_key}
use leaf_flow_chat.Settings.{Settings, defaults, jwks}
use leaf_flow_chat.Sql.Rows.{rows}
use leaf_flow_chat.Api.{success, failure}
use leaf_flow_chat.Auth.{Jwt, Claims, text_claim, get_verifier, claims_of, verify}
use leaf_flow_chat.Auth.Entrance.{get_current_principal, authenticate, connect_with}
use leaf_flow_chat.Auth.Checks.{IsChecked, entrance_checks}
use leaf_flow_chat.Auth.Agreement.{entrances_agree}
use leaf_flow_chat.Auth.Connection.{connect_with_leaves}
use leaf_flow_chat.Db.Valid.{IsValid}
use leaf_flow_chat.Ws.Endpoint.{Hub}
use leaf_flow_chat.Ws.Manager.{WebSocket, init}
use leaf_flow_chat.Ws.Registry.{connected, subscribed}
use leaf_flow_chat.Tests.Data.{session, db-IsValid}

abbrev pub boss_claims : Claims
boss_claims = record {
  sub = some (text_claim "1");
  kind = none;
  role = some (text_claim "admin");
  roles = none;
}

abbrev pub if_taken : Bool → Option Claims
if_taken true = some boss_claims
if_taken false = none

pub if_taken-some : (b : Bool) (claims : Claims) → if_taken b ≡ some claims → b ≡ true
if_taken-some true claims h = refl
if_taken-some false claims h = absurd (cc h)

-- Every token is signed with HS256, and says that its bearer is the admin number 1.
instance abbrev pub one_token : Jwt
one_token = record {
  Key = String;
  secret_key = λ secret. secret;
  decode = λ token key algorithms. if_taken (any (str_eq "HS256") algorithms);
  signing_key = λ url token. some url;
  algorithm = λ token. "HS256";
  decode-algorithm =
      λ token key algorithms claims h. if_taken-some (any (str_eq "HS256") algorithms) claims h;
}

abbrev pub parse_int : String → Option ℕ
parse_int t = if str_eq t "1" then some 1 else none

abbrev pub boss : Principal
boss = record { kind = admin; subject_id = 1; roles = [] }

entrance_checks_example : IsChecked parse_int defaults "token" boss
unfolding get_current_principal get_verifier verify claims_of
entrance_checks_example = entrance_checks parse_int defaults "token" boss refl

-- without a JWKS_URL
abbrev no_url : Settings
no_url = record defaults { jwt_verify_mode = jwks }

entrances_agree_example :
    ((p : Principal)
      → (authenticate parse_int no_url "token" ≡ some p)
        ↔ (get_current_principal parse_int no_url "token" ≡ success p))
    × (authenticate parse_int no_url "token" ≡ none
        → (get_current_principal parse_int no_url "token" ≡ failure 401)
          ⊎ ((get_current_principal parse_int no_url "token" ≡ failure 500)
              × (get_verifier no_url ≡ err assertion_error)))
entrances_agree_example = entrances_agree parse_int no_url "token"

abbrev pub hub : Hub
hub = record { session = session; manager = init }

abbrev no_uuid : String → Option Uuid
no_uuid t = none

abbrev never_fails : WebSocket → Bool
never_fails ws = false

connect_with_leaves_example :
    let end = connect_with parse_int no_uuid never_fails defaults "token" 1 [] hub in
    IsValid end.session.committed
    × (authenticate parse_int defaults "token" ≡ none → end ≡ hub)
    × ((p : Principal)
        → authenticate parse_int defaults "token" ≡ some p
        → (connected end.manager (principal_key p) 1 ≡ false)
          × ((c : Uuid) → subscribed end.manager c (principal_key p) ≡ false))
connect_with_leaves_example =
    connect_with_leaves parse_int no_uuid never_fails defaults "token" 1 [] hub db-IsValid
