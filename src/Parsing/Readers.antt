-- ===== src/Parsing/Readers.antt =====
-- The readers of configuration text (backend/app/parsing/readers).
pub mod Fortios
pub mod Scan
pub mod Indentation
