-- ===== src/Grpc.antt =====
-- Signals over gRPC: src/core/python/messaging/grpc.
pub mod Watch
pub mod Client
pub mod Mirrored
