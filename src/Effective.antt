-- ===== src/Effective.antt =====
-- Effective states, resolved from security facts (backend/app/effective_state).
pub mod Values
pub mod Scopes
pub mod Fields
pub mod Policy
pub mod Drafts
pub mod Facts
pub mod Dependencies
pub mod Winner
pub mod Partitions
pub mod Grouping
pub mod Resolver
pub mod Examples
