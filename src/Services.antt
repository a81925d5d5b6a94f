-- ===== src/Services.antt =====
-- services: the use cases, each an action on a unit of work.
pub mod MessageService
pub mod ConversationService
pub mod AdminService
pub mod ReadStateService
pub mod Validity
