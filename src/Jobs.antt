-- ===== src/Jobs.antt =====
-- Durable jobs (backend/app/jobs, backend/app/db/models/job.py).
pub mod Model
pub mod Store
pub mod Rows
pub mod Service
pub mod Runner
mod Examples
