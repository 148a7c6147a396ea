-- ===== src/Types.antt =====
-- types.go: the data of requests, responses and payments. Each child is a part of it.
pub mod Chat
pub mod Payment
