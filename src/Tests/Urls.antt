-- ===== src/Tests/Urls.antt =====
-- The database URLs where the password has "+asyncpg" in it.
use leaf_flow_chat.Prelude.{◌≡◌, ◌↔◌, refl, false, [], ◌∷◌, ◌++◌}
use leaf_flow_chat.Settings.Database.{
  replace_after, DatabaseSettings, postgresql, asyncpg, psycopg2, port_text, database_url,
  sync_database_url,
}
use leaf_flow_chat.Settings.Database.Driver.{address, occurs, sync_database_url_swaps}

abbrev unlucky : DatabaseSettings
unlucky = record {
  postgres_user = b'u' ∷ [];
  postgres_password = asyncpg;
  postgres_db = b'd' ∷ [];
  db_host = b'h' ∷ [];
  db_port = 5432;
}

port : port_text 5432 ≡ b'5' ∷ b'4' ∷ b'3' ∷ b'2' ∷ []
unfolding port_text
port = refl

sync_database_url_swaps_example :
    (database_url unlucky ≡ postgresql ++ asyncpg ++ address unlucky)
    × ((sync_database_url unlucky ≡ postgresql ++ psycopg2 ++ address unlucky)
        ↔ (occurs asyncpg (address unlucky) ≡ false))
sync_database_url_swaps_example = sync_database_url_swaps unlucky

-- Its password is another one in the URL for migrations.
password_changed :
    sync_database_url unlucky
    ≡ postgresql
      ++ psycopg2
      ++ (b':' ∷ b'/' ∷ b'/' ∷ b'u' ∷ b':' ∷ [])
      ++ psycopg2
      ++ (b'@' ∷ b'h' ∷ b':' ∷ b'5' ∷ b'4' ∷ b'3' ∷ b'2' ∷ b'/' ∷ b'd' ∷ [])
unfolding sync_database_url replace_after database_url port_text
password_changed = refl
