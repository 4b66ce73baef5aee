-- ===== src/Sandbox.antt =====
-- services/sandbox-manager/src: which keys are safe (security.ts), and who may view a sandbox
-- (viewAccess.ts).
pub mod Security
pub mod ViewAccess
