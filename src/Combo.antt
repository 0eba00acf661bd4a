-- ===== src/Combo.antt =====
-- Combo programs: vertices, trees, and their evaluation (opencog/asmoses/combo).
pub mod Tree
pub mod Eval
pub mod Order
pub mod Denote
mod Tests
