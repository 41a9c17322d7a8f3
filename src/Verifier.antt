-- ===== src/Verifier.antt =====
-- Did it work: core/src/garis/agent/verify.py and agent/reflex.py.
pub mod Reflexes
pub mod Table
pub mod Check
pub mod Measured
pub mod Verdicts
pub mod Stubs
pub mod Plans
mod Tests
