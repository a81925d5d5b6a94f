-- ===== src/Auth/Agreement.antt =====
-- The entrances of HTTP and of WebSockets let in the same callers.
use leaf_flow_chat.Prelude.{
  ℕ, String, ◌≡◌, ◌↔◌, ◌⊎◌, refl, Option, none, some, str_eq, if◌then◌else◌, inl, inr, Bool-cases,
  ap,
}
use leaf_flow_chat.Errors.{Error, Result, ok, err, assertion_error, Result-cases}
use leaf_flow_chat.Principal.{Principal}
use leaf_flow_chat.Settings.{Settings, VerifyMode, hs256, jwks}
use leaf_flow_chat.Api.{success, failure, status_of}
use leaf_flow_chat.Auth.{
  Jwt, Verifier, jwks_verifier, get_verifier, jwks_or_raise, verifier_of, verify,
}
use leaf_flow_chat.Auth.Entrance.{
  or_401, or_401-success, principal_or_failure, get_current_principal, principal_or_none,
  authenticate,
}

jwks_or_raise-err : (o : Option String) (e : Error) → jwks_or_raise o ≡ err e → e ≡ assertion_error
jwks_or_raise-err none e h = cc h
jwks_or_raise-err (some url) e h = elim (Bool-cases (str_eq url "")) [
  | inl b ↦ cc (ap (λ c. if c then err assertion_error else ok (jwks_verifier url)) b, h)
  | inr b ↦ absurd (cc (ap (λ c. if c then err assertion_error else ok (jwks_verifier url)) b, h))
]

verifier_of-err :
    (mode : VerifyMode) (settings : Settings) (e : Error)
    → verifier_of mode settings ≡ err e
    → e ≡ assertion_error
verifier_of-err hs256 settings e h = absurd (cc h)
verifier_of-err jwks settings e h = jwks_or_raise-err settings.jwks_url e h

get_verifier-err :
    (settings : Settings) (e : Error) → get_verifier settings ≡ err e → e ≡ assertion_error
unfolding get_verifier
get_verifier-err settings e h = verifier_of-err settings.jwt_verify_mode settings e h

module _ (parse_int : String → Option ℕ) ⦃jwt : Jwt⦄ where
  -- what `entrances_agree` says, of what the settings gave
  abbrev Agree : Result Verifier → String → Type 0
  Agree r token =
      ((p : Principal)
        → (principal_or_none parse_int r token ≡ some p)
          ↔ (principal_or_failure parse_int r token ≡ success p))
      × (principal_or_none parse_int r token ≡ none
          → (principal_or_failure parse_int r token ≡ failure 401)
            ⊎ ((principal_or_failure parse_int r token ≡ failure 500) × (r ≡ err assertion_error)))

  Agree-err : (e : Error) (token : String) → e ≡ assertion_error → Agree (err e) token
  unfolding status_of
  Agree-err e token h = (
    λ p. (λ h'. absurd (cc h'), λ h'. absurd (cc h')),
    λ h'. inr (ap (λ k. failure (status_of k)) h, ap err h),
  )

  Agree-ok : (v : Verifier) (token : String) → Agree (ok v) token
  Agree-ok v token = by_result (verify parse_int v token)
    where
      by_result :
          (o : Option Principal)
          → ((p : Principal) → (o ≡ some p) ↔ (or_401 o ≡ success p))
            × (o ≡ none
                → (or_401 o ≡ failure 401)
                  ⊎ ((or_401 o ≡ failure 500) × (ok v ≡ err assertion_error)))
      by_result none = (λ p. (λ h'. absurd (cc h'), λ h'. absurd (cc h')), λ h'. inl refl)
      by_result (some q) =
          (λ p. (λ h'. ap or_401 h', λ h'. or_401-success (some q) p h'), λ h'. absurd (cc h'))

  -- Both entrances let in the same callers as the same principals; a request that is let in nowhere
  -- is answered by 401, or by 500 where the settings have no verifier.
  pub entrances_agree :
      (settings : Settings) (token : String)
      → ((p : Principal)
          → (authenticate parse_int settings token ≡ some p)
            ↔ (get_current_principal parse_int settings token ≡ success p))
        × (authenticate parse_int settings token ≡ none
            → (get_current_principal parse_int settings token ≡ failure 401)
              ⊎ ((get_current_principal parse_int settings token ≡ failure 500)
                  × (get_verifier settings ≡ err assertion_error)))
  unfolding get_current_principal authenticate
  entrances_agree settings token = elim (Result-cases (get_verifier settings)) [
    | inl (v, e) ↦ rw e (Agree-ok v token)
    | inr (k, e) ↦ rw e (Agree-err k token (get_verifier-err settings k e))
  ]
