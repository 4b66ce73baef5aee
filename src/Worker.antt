-- ===== src/Worker.antt =====
-- services/api/src/worker.ts: the `RunWorker`, which dispatches due schedules and processes the jobs
-- of the queue.
pub mod Processing
pub mod Jobs
pub mod Polling
