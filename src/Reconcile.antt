-- ===== src/Reconcile.antt =====
-- internal/reconcile: the log of recent writes and the engine that replays it after a partition.
pub mod Log
pub mod Engine
