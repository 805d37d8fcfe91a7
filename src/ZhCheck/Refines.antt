-- ===== src/ZhCheck/Refines.antt =====
-- The loop of remove_c_annotation computes what `Lexer.strip` says.
mod Steps
pub mod Relation
mod Bytes
mod Pairs
pub mod Loop
