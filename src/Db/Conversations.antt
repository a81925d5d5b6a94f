-- ===== src/Db/Conversations.antt =====
-- infrastructure/db/repositories/conversation.py
mod Reader
mod Pages
mod Writer
pub mod Adjoin
unfoldable pub use Reader.*
unfoldable pub use Pages.*
unfoldable pub use Writer.*
