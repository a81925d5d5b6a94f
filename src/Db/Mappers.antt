-- ===== src/Db/Mappers.antt =====
-- infrastructure/db/mappers: between the rows and the entities.
pub mod ConversationMapper
pub mod MessageMapper
pub mod ParticipantMapper
