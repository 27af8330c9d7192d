-- ===== src/Rules.antt =====
-- internal/rules: the diff of two versions of a rule, and the engine that evaluates and saves rules.
pub mod Diff
pub mod Match
pub mod Documents
pub mod Engine
mod Tests
