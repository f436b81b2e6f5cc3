-- ===== src/Parser.antt =====
-- src/parser/: the text of a rule becomes a condition.
pub mod Nom
pub mod Rule
