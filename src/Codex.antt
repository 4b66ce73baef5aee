-- ===== src/Codex.antt =====
-- The Codex worker, services/codex-worker.
pub mod EventBuffer
