-- ===== src/Auth.antt =====
-- infrastructure/auth, and the entrances that use it: api/deps.py and `_authenticate` of ws.py. What
-- PyJWT does is the interface `Jwt`; `parse_int` is `int(…)` of a text.
pub mod Entrance
pub mod Checks
pub mod Agreement
pub mod Connection
use leaf_flow_chat.Prelude.{
  ℕ, String, ◌≡◌, Bool, true, Option, none, some, List, [], ◌∷◌, any, str_eq, if◌then◌else◌,
}
use leaf_flow_chat.Domain.{ParticipantKind, user, admin, SubjectId}
use leaf_flow_chat.Errors.{Result, ok, err, assertion_error, value_error, key_error, type_error}
use leaf_flow_chat.Principal.{Principal}
use leaf_flow_chat.Settings.{Settings, VerifyMode, hs256, jwks}

-- a claim's value: a text, a number, or anything else
pub data Claim : Type 0 where
  text_claim : String → Claim
  int_claim : ℕ → Claim
  other_claim : Claim

-- The claims that are read. Where there are roles, they are a list of texts.
pub record Claims : Type 0 where
  pub sub : Option Claim
  pub kind : Option Claim
  pub role : Option Claim
  pub roles : Option (List String)

pub record Jwt : Type 1 where
  pub Key : Type 0
  pub secret_key : String → Key
  -- `jwt.decode(token, key, algorithms=…)`, without a value where it raises
  pub decode : String → Key → List String → Option Claims
  -- `PyJWKClient(url).get_signing_key_from_jwt(token).key`
  pub signing_key : String → String → Option Key
  -- the algorithm that a token's header names
  pub algorithm : String → String
  -- A token whose algorithm is not in the list is refused.
  pub decode-algorithm :
      (token : String) (key : Key) (algorithms : List String) (claims : Claims)
      → decode token key algorithms ≡ some claims
      → any (str_eq (algorithm token)) algorithms ≡ true

-- `payload.get(key, c)`
abbrev pub or_claim : Option Claim → Claim → Claim
or_claim none c = c
or_claim (some c) d = c

-- `payload.get("kind", payload.get("role", "user"))`
abbrev pub kind_raw : Claims → Claim
kind_raw claims = or_claim claims.kind (or_claim claims.role (text_claim "user"))

-- the member of ParticipantKind with this value, or USER
abbrev pub kind_of : Claim → ParticipantKind
kind_of (text_claim t) = if str_eq t "admin" then admin else user
kind_of (int_claim n) = user
kind_of other_claim = user

abbrev pub roles_of : Option (List String) → List String
roles_of none = []
roles_of (some roles) = roles

abbrev pub or_raise : Option ℕ → Result SubjectId
or_raise none = err value_error
or_raise (some n) = ok n

-- the verifiers, as `_get_verifier` builds them
pub data Verifier : Type 0 where
  hs256_verifier : String → String → Verifier
  jwks_verifier : String → Verifier

-- `assert settings.JWKS_URL`, which neither None nor "" passes
abbrev pub jwks_or_raise : Option String → Result Verifier
jwks_or_raise none = err assertion_error
jwks_or_raise (some url) = if str_eq url "" then err assertion_error else ok (jwks_verifier url)

abbrev pub verifier_of : VerifyMode → Settings → Result Verifier
verifier_of jwks settings = jwks_or_raise settings.jwks_url
verifier_of hs256 settings = ok (hs256_verifier settings.jwt_secret settings.jwt_algorithm)

unfoldable pub get_verifier : Settings → Result Verifier
get_verifier settings = verifier_of settings.jwt_verify_mode settings

module _ (parse_int : String → Option ℕ) where
  -- `int(payload["sub"])`
  abbrev pub subject_of : Option Claim → Result SubjectId
  subject_of none = err key_error
  subject_of (some (text_claim t)) = or_raise (parse_int t)
  subject_of (some (int_claim n)) = ok n
  subject_of (some other_claim) = err type_error

  abbrev pub with_subject : Claims → Result SubjectId → Option Principal
  with_subject claims (err e) = none
  with_subject claims (ok n) =
      some
        (record { kind = kind_of (kind_raw claims); subject_id = n; roles = roles_of claims.roles })

  -- the rest of both `verify` methods, without a value where it raises
  abbrev pub principal_of : Option Claims → Option Principal
  principal_of none = none
  principal_of (some claims) = with_subject claims (subject_of claims.sub)

  module _ ⦃jwt : Jwt⦄ where
    abbrev pub decode_with : String → List String → Option jwt.Key → Option Claims
    decode_with token algorithms none = none
    decode_with token algorithms (some key) = jwt.decode token key algorithms

    -- the claims that `verify` decodes
    unfoldable pub claims_of : Verifier → String → Option Claims
    claims_of (hs256_verifier secret algorithm) token =
        jwt.decode token (jwt.secret_key secret) (algorithm ∷ [])
    claims_of (jwks_verifier url) token =
        decode_with token ("RS256" ∷ "ES256" ∷ []) (jwt.signing_key url token)

    unfoldable pub verify : Verifier → String → Option Principal
    verify verifier token = principal_of (claims_of verifier token)
