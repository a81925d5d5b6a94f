-- ===== src/Scripts.antt =====
-- scripts: what is run by hand.
pub mod Seed
pub mod ConsumerGroup
