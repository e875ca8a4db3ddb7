-- ===== src/Parsing.antt =====
-- Structural parsing of configuration text (backend/app/parsing).
pub mod Model
pub mod Tokenizer
pub mod Builder
pub mod Lines
pub mod Readers
pub mod Examples
