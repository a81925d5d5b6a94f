-- ===== src/Auth/Checks.antt =====
-- What a caller who is let in has shown.
use leaf_flow_chat.Prelude.{
  ℕ, String, ◌≡◌, refl, Bool, true, false, not, ◌&&◌, ◌||◌, Option, none, some, is_some, [], ◌∷◌,
  str_eq, arith, ap, ◌∙◌, sym,
}
use leaf_flow_chat.Errors.{Result, ok, err}
use leaf_flow_chat.Principal.{Principal, is_admin_kind}
use leaf_flow_chat.Settings.{Settings}
use leaf_flow_chat.Api.{success}
use leaf_flow_chat.Domain.{SubjectId}
use leaf_flow_chat.Auth.{
  Claim, text_claim, int_claim, other_claim, Claims, Jwt, Verifier, hs256_verifier, jwks_verifier,
  get_verifier, or_claim, kind_raw, roles_of, kind_of, subject_of, with_subject, principal_of,
  decode_with, claims_of, verify,
}
use leaf_flow_chat.Auth.Entrance.{
  or_401, or_401-success, principal_or_failure, get_current_principal,
}

abbrev pub is_text : String → Option Claim → Bool
is_text t none = false
is_text t (some (text_claim u)) = str_eq u t
is_text t (some (int_claim n)) = false
is_text t (some other_claim) = false

-- The claims make their bearer an admin: by `kind`, or by `role` where there is no `kind`.
abbrev pub says_admin : Claims → Bool
says_admin claims =
    is_text "admin" claims.kind || (not (is_some claims.kind) && is_text "admin" claims.role)

kind_of-text : (t : String) → is_admin_kind (kind_of (text_claim t)) ≡ str_eq t "admin"
kind_of-text t = ground arith

kind_of-or_claim :
    (kind role : Option Claim)
    → is_admin_kind (kind_of (or_claim kind (or_claim role (text_claim "user"))))
      ≡ (is_text "admin" kind || (not (is_some kind) && is_text "admin" role))
kind_of-or_claim none none = refl
kind_of-or_claim none (some (text_claim t)) = kind_of-text t
kind_of-or_claim none (some (int_claim n)) = refl
kind_of-or_claim none (some other_claim) = refl
kind_of-or_claim (some (text_claim t)) role = kind_of-text t ∙ ground arith
kind_of-or_claim (some (int_claim n)) role = refl
kind_of-or_claim (some other_claim) role = refl

-- the algorithms that a verifier takes
abbrev pub takes : Verifier → String → Bool
takes (hs256_verifier secret algorithm) a = str_eq a algorithm
takes (jwks_verifier url) a = str_eq a "RS256" || str_eq a "ES256"

module _ (parse_int : String → Option ℕ) ⦃jwt : Jwt⦄ where
  claims_of-algorithm :
      (v : Verifier) (token : String) (claims : Claims)
      → claims_of parse_int v token ≡ some claims
      → takes v (jwt.algorithm token) ≡ true
  unfolding claims_of
  claims_of-algorithm (hs256_verifier secret algorithm) token claims h =
      ground (arith, jwt.decode-algorithm token (jwt.secret_key secret) (algorithm ∷ []) claims h)
  claims_of-algorithm (jwks_verifier url) token claims h = by_key (jwt.signing_key url token) h
    where
      by_key :
          (o : Option jwt.Key)
          → decode_with parse_int token ("RS256" ∷ "ES256" ∷ []) o ≡ some claims
          → takes (jwks_verifier url) (jwt.algorithm token) ≡ true
      by_key none h = absurd (cc h)
      by_key (some key) h =
          ground (arith, jwt.decode-algorithm token key ("RS256" ∷ "ES256" ∷ []) claims h)

  with_subject-some :
      (claims : Claims) (p : Principal) (r : Result SubjectId)
      → with_subject parse_int claims r ≡ some p
      → (r ≡ ok p.subject_id) × (is_admin_kind p.kind ≡ says_admin claims)
  with_subject-some claims p (err e) h = absurd (cc h)
  with_subject-some claims p (ok n) h =
      let same : record {
        kind = kind_of (kind_raw claims);
        subject_id = n;
        roles = roles_of claims.roles;
      }
          ≡ p =
        cc h in
      (
        ap (λ (q : Principal). ok q.subject_id) same,
        ap (λ (q : Principal). is_admin_kind q.kind) (sym same)
            ∙ kind_of-or_claim claims.kind claims.role,
      )

  -- A configured verifier has decoded claims of the token, under an algorithm which it takes; the
  -- claims name the principal's id, and make it an admin exactly if the principal is one.
  abbrev pub IsChecked : Settings → String → Principal → Type 0
  IsChecked settings token p =
      (v : Verifier) × (claims : Claims) × (get_verifier settings ≡ ok v)
      × (claims_of parse_int v token ≡ some claims)
      × (takes v (jwt.algorithm token) ≡ true)
      × (subject_of parse_int claims.sub ≡ ok p.subject_id)
      × (is_admin_kind p.kind ≡ says_admin claims)

  -- Whoever is let in has a token of which a configured verifier has decoded claims, under an
  -- algorithm which that verifier takes; the claims name the principal's id, and make it an admin
  -- exactly if the principal is one.
  pub entrance_checks :
      (settings : Settings) (token : String) (p : Principal)
      → get_current_principal parse_int settings token ≡ success p
      → IsChecked settings token p
  unfolding get_current_principal
  entrance_checks settings token p h = built (get_verifier settings) refl h
    where
      decoded :
          (v : Verifier)
          → get_verifier settings ≡ ok v
          → (o : Option Claims) → claims_of parse_int v token ≡ o
          → or_401 (principal_of parse_int o) ≡ success p
          → IsChecked settings token p
      decoded v e none e' h' = absurd (cc h')
      decoded v e (some claims) e' h' =
          let found =
            with_subject-some claims p (subject_of parse_int claims.sub) (or_401-success _ p h') in
          (v, claims, e, e', claims_of-algorithm v token claims e', found.0, found.1)

      built :
          (r : Result Verifier)
          → get_verifier settings ≡ r
          → principal_or_failure parse_int r token ≡ success p
          → IsChecked settings token p
      built (err e) e' h' = absurd (cc h')
      built (ok v) e' h' = unfold verify in decoded v e' (claims_of parse_int v token) refl h'
