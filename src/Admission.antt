-- ===== src/Admission.antt =====
-- internal/admission: the pool of tasks behind a worker gate and a memory gate.
pub mod Gates
pub mod Pool
pub mod Weights
pub mod Invariant
pub mod Progress
