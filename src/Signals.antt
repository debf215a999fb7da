-- ===== src/Signals.antt =====
-- src/core/python/protobuf/signal: signals that carry ProtoBuf messages to connected slots
-- (signalstore.py), and the store that replays the latest ones (cachingsignalstore.py).
pub mod Message
pub mod Store
pub mod Caching
pub mod Connected
pub mod Delivery
pub mod Writer
