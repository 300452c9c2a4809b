-- ===== src/AddEngine.antt =====
-- add_engine.py: the shared engine of the single and the parallel add.
pub mod Members
pub mod Cooldown
pub mod Target
pub mod Throttle
pub mod Blocked
pub mod Prefilter
pub mod Joined
