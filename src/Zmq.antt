-- ===== src/Zmq.antt =====
-- Messaging over ZeroMQ: src/core/python/messaging/zmq.
pub mod Address
pub mod Endpoint
pub mod Rpc
pub mod Topics
