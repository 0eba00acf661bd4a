-- ===== src/Combo/Eval.antt =====
-- The evaluator of opencog/asmoses/combo/interpreter/eval.cc.
pub mod Monad
pub mod Loops
pub mod Machine
pub mod Logical
