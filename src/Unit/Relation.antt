-- ===== src/Unit/Relation.antt =====
-- Relations between units, and the atoms that they stand for.
pub mod Names
pub mod AtomNames
pub mod ToAtom
pub mod FromAtom
pub mod Inverse
pub mod Tables
