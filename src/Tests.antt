-- ===== src/Tests.antt =====
-- Concrete runs of the model, and the properties applied to them.
mod Samples
mod Storage
mod Service
mod Reducers
mod Timing
mod Work
mod Access
