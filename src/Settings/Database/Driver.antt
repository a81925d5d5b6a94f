-- ===== src/Settings/Database/Driver.antt =====
-- Where the URL for migrations differs from the other in its driver alone.
use leaf_flow_chat.Prelude.{
  ℕ, zero, suc, ◌+◌, ◌-◌, ◌≤◌, ◌<◌, ◌≡◌, refl, ap, Bool, true, false, ◌||◌, ◌↔◌, [], ◌∷◌, ◌++◌,
  length, drop, length-append, arith, inl, inr, Bool-cases,
}
use leaf_flow_chat.Settings.Database.{
  Text, DatabaseSettings, starts_with, replace_after, replace, port_text, postgresql, asyncpg,
  psycopg2, database_url, sync_database_url,
}

-- Whether the one text occurs in the other.
abbrev pub occurs : Text → Text → Bool
occurs s [] = starts_with s []
occurs s (c ∷ t) = starts_with s (c ∷ t) || occurs s t

-- what follows the driver in both URLs
abbrev pub address : DatabaseSettings → Text
address settings =
    (b':' ∷ b'/' ∷ b'/' ∷ [])
    ++ settings.postgres_user
    ++ (b':' ∷ [])
    ++ settings.postgres_password
    ++ (b'@' ∷ [])
    ++ settings.db_host
    ++ (b':' ∷ [])
    ++ port_text settings.db_port
    ++ (b'/' ∷ [])
    ++ settings.postgres_db

starts_with-nil : (s : Text) → starts_with s [] ≡ true → length s ≡ 0
starts_with-nil [] h = refl
starts_with-nil (c ∷ s) h = ground arith

module _ (old new : Text) where
  replace-absent : (t : Text) → occurs old t ≡ false → replace old new t ≡ t
  unfolding replace_after
  replace-absent [] h = refl
  replace-absent (c ∷ t) h = elim (Bool-cases (starts_with old (c ∷ t))) [
    | inl e ↦ ground (arith, h, e)
    | inr e ↦ rw e (ap (λ u. c ∷ u) (replace-absent t (ground (arith, h, e))))
  ]

  module _ (nonempty : 1 ≤ length old) (longer : length old < length new) where
    -- Nothing gets lost but what is skipped.
    length-replace_after : (k : ℕ) (t : Text) → length t ≤ length (replace_after old new k t) + k
    unfolding replace_after
    length-replace_after k [] = omega arith
    length-replace_after (suc k) (c ∷ t) = omega (arith, length-replace_after k t)
    length-replace_after zero (c ∷ t) = elim (Bool-cases (starts_with old (c ∷ t))) [
      | inl e ↦ rw e (
          omega (
            arith,
            length-append new (replace_after old new (length old - 1) t),
            length-replace_after (length old - 1) t,
            nonempty,
            longer,
          ))
      | inr e ↦ rw e (omega (arith, length-replace_after 0 t))
    ]

    replace-longer : (t : Text) → occurs old t ≡ true → length t < length (replace old new t)
    unfolding replace_after
    replace-longer [] h = omega (arith, nonempty, starts_with-nil old h)
    replace-longer (c ∷ t) h = elim (Bool-cases (starts_with old (c ∷ t))) [
      | inl e ↦ rw e (
          omega (
            arith,
            length-append new (replace_after old new (length old - 1) t),
            length-replace_after (length old - 1) t,
            nonempty,
            longer,
          ))
      | inr e ↦ rw e (omega (arith, replace-longer t (ground (arith, h, e))))
    ]

    replace-absent_iff : (t : Text) → (replace old new t ≡ t) ↔ (occurs old t ≡ false)
    replace-absent_iff t = (
      (λ q. elim (Bool-cases (occurs old t)) [
        | inl e ↦ ground (arith, ap length q, replace-longer t e)
        | inr e ↦ e
      ]),
      replace-absent t,
    )

-- The URL of database_url names the driver asyncpg. The one of sync_database_url is the same but for
-- the driver, psycopg2, exactly where "+asyncpg" does not occur in what follows: in the user, the
-- password, the host, the port or the name of the database, or across them.
pub sync_database_url_swaps :
    (settings : DatabaseSettings)
    → (database_url settings ≡ postgresql ++ asyncpg ++ address settings)
      × ((sync_database_url settings ≡ postgresql ++ psycopg2 ++ address settings)
          ↔ (occurs asyncpg (address settings) ≡ false))
unfolding database_url sync_database_url replace_after
sync_database_url_swaps settings =
    let swap = replace-absent_iff asyncpg psycopg2 (omega arith) (omega arith) (address settings) in
    (
      refl,
      ((λ q. swap.0 (ap (drop 19) q)), (λ h. ap (λ u. postgresql ++ psycopg2 ++ u) (swap.1 h))),
    )
