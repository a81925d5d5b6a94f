-- ===== src/Settings/Database.antt =====
-- The database URLs of config.py. Texts are lists of code points.
pub mod Driver
use leaf_flow_chat.Prelude.{
  ℕ, zero, suc, ◌+◌, ◌-◌, ◌/◌, ◌%◌, Bool, true, false, ◌&&◌, List, [], ◌∷◌, ◌++◌, ◌==◌, length, ltb,
  if◌then◌else◌,
}

abbrev pub Text : Type 0
Text = List ℕ

-- the settings that the URLs are made of
pub record DatabaseSettings : Type 0 where
  pub postgres_user : Text
  pub postgres_password : Text
  pub postgres_db : Text
  pub db_host : Text
  pub db_port : ℕ

-- `t.startswith(s)`
abbrev pub starts_with : Text → Text → Bool
starts_with [] t = true
starts_with (c ∷ s) [] = false
starts_with (c ∷ s) (x ∷ t) = (x == c) && starts_with s t

-- What `t.replace(old, new)` makes of a text whose first code points, so many, belong to an
-- occurrence of `old` that is replaced already; `old` is not empty.
unfoldable pub replace_after : Text → Text → ℕ → Text → Text
replace_after old new k [] = []
replace_after old new (suc k) (c ∷ t) = replace_after old new k t
replace_after old new zero (c ∷ t) =
    let kept = replace_after old new 0 t in
    let replaced = replace_after old new (length old - 1) t in
    if starts_with old (c ∷ t) then new ++ replaced else c ∷ kept

abbrev pub replace : Text → Text → Text → Text
replace old new t = replace_after old new 0 t

-- The decimal text of a number, which is itself fuel enough.
digits : ℕ → ℕ → Text
digits zero n = (b'0' + n) ∷ []
digits (suc fuel) n =
    let rest = digits fuel (n / 10) ++ (b'0' + n % 10) ∷ [] in
    if ltb n 10 then (b'0' + n) ∷ [] else rest

unfoldable pub port_text : ℕ → Text
unfolding digits
port_text n = digits n n

abbrev pub postgresql : Text
postgresql = b'p' ∷ b'o' ∷ b's' ∷ b't' ∷ b'g' ∷ b'r' ∷ b'e' ∷ b's' ∷ b'q' ∷ b'l' ∷ []

abbrev pub asyncpg : Text
asyncpg = b'+' ∷ b'a' ∷ b's' ∷ b'y' ∷ b'n' ∷ b'c' ∷ b'p' ∷ b'g' ∷ []

abbrev pub psycopg2 : Text
psycopg2 = b'+' ∷ b'p' ∷ b's' ∷ b'y' ∷ b'c' ∷ b'o' ∷ b'p' ∷ b'g' ∷ b'2' ∷ []

unfoldable pub database_url : DatabaseSettings → Text
database_url settings =
    postgresql
    ++ asyncpg
    ++ (b':' ∷ b'/' ∷ b'/' ∷ [])
    ++ settings.postgres_user
    ++ (b':' ∷ [])
    ++ settings.postgres_password
    ++ (b'@' ∷ [])
    ++ settings.db_host
    ++ (b':' ∷ [])
    ++ port_text settings.db_port
    ++ (b'/' ∷ [])
    ++ settings.postgres_db

unfoldable pub sync_database_url : DatabaseSettings → Text
sync_database_url settings = replace asyncpg psycopg2 (database_url settings)
