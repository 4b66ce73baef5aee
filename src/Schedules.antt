-- ===== src/Schedules.antt =====
-- Cron expressions: services/api/src/schedules/cron.ts.
pub mod Cron
pub mod Occurrence
