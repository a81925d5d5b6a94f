-- ===== src/Api/Health.antt =====
-- api/v1/routers/health.py: `readyz`. What each check raised, as a text, is a parameter.
use leaf_flow_chat.Prelude.{
  ℕ, String, ◌<>◌, ◌≡◌, ◌↔◌, ◌⊎◌, inl, inr, refl, ◌+◌, Option, none, some, List, [], ◌∷◌, ◌++◌,
  length, arith,
}

pub record Readiness : Type 0 where
  pub status_code : ℕ
  pub errors : List String

-- what a check appends to `errors`
abbrev pub report : String → Option String → List String
report name none = []
report name (some exc) = (name <> ": " <> exc) ∷ []

-- `if errors:`
abbrev pub readiness : List String → Readiness
readiness [] = record { status_code = 200; errors = [] }
readiness (e ∷ errors) = record { status_code = 503; errors = e ∷ errors }

unfoldable pub readyz : Option String → Option String → Readiness
readyz postgres redis = readiness (report "postgres" postgres ++ report "redis" redis)

-- readyz answers 200 exactly where both checks succeed, answers 503 otherwise, and reports one error
-- for each check that failed.
pub readyz_reports :
    (postgres redis : Option String)
    → let r = readyz postgres redis in
      ((r.status_code ≡ 200) ↔ ((postgres ≡ none) × (redis ≡ none)))
      × ((r.status_code ≡ 200) ⊎ (r.status_code ≡ 503))
      × (length r.errors ≡ length (report "postgres" postgres) + length (report "redis" redis))
unfolding readyz
readyz_reports none none = ((λ h. (refl, refl), λ h. refl), inl refl, refl)
readyz_reports none (some e) =
    ((λ h. absurd (omega (arith, h)), λ h. absurd (cc (h.1))), inr refl, refl)
readyz_reports (some e) none =
    ((λ h. absurd (omega (arith, h)), λ h. absurd (cc (h.0))), inr refl, refl)
readyz_reports (some e) (some f) =
    ((λ h. absurd (omega (arith, h)), λ h. absurd (cc (h.0))), inr refl, refl)
