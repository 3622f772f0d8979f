-- ===== src/Unit.antt =====
-- core/bin/unit and core/lib/unit: what a unit is to the job engine.
pub mod State
pub mod Relation
pub mod Deps
pub mod StartLimit
mod Tests
