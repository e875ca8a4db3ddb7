-- ===== src/Compliance.antt =====
-- Judging states by rules (backend/app/compliance).
pub mod Evaluator
pub mod Rules
pub mod Policy
pub mod Findings
pub mod Evidence
pub mod Judgement
pub mod Service
pub mod Examples
