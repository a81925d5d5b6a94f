-- ===== src/Bus.antt =====
-- infrastructure/bus: the messages that go through Redis, and what a process does with them.
pub mod Serializer
pub mod PubSub
pub mod Merge
pub mod Arrives
pub mod Heard
pub mod Listener
pub mod EndToEnd
