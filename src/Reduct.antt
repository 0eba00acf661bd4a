-- ===== src/Reduct.antt =====
-- The reduction of combo trees (opencog/asmoses/reduct).
pub mod Rules
pub mod Cond
pub mod Clauses
pub mod Mapper
pub mod Conjunctions
pub mod Sound
pub mod Strategy
pub mod Level
pub mod Nnf
pub mod Identities
pub mod Lost
mod Tests
