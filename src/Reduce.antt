-- ===== src/Reduce.antt =====
-- crates/analyzer/src/reduce: the symbolic reducer's values and terms.
pub mod Floats
pub mod Value
pub mod Term
pub mod Eval
