-- ===== src/Db.antt =====
-- infrastructure/db: the tables, the mappers, the unit of work and the repositories.
pub mod Models
pub mod Mappers
pub mod Constraints
pub mod Session
pub mod Cursor
pub mod Conversations
pub mod Participants
pub mod Messages
pub mod MessagePages
pub mod ReadStates
pub mod Outbox
pub mod Valid
