-- ===== src/Hse.antt =====
-- Health and safety: incidents and corrective actions (app/services/hse.py).
pub mod Model
pub mod Service
pub mod Closure
mod Examples
