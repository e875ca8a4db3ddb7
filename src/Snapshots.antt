-- ===== src/Snapshots.antt =====
-- Snapshots of a device's evidence and the audits that are submitted for them
-- (backend/app/snapshots/service.py, backend/app/audit/service.py).
pub mod Rows
pub mod Service
pub mod Submission
pub mod Runs
mod Examples
