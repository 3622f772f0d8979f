-- ===== src/Unit/Relation/AtomNames.antt =====
-- core/lib/unit/deps.rs: `UnitRelationAtom`, what a relation means to the job engine.
use sysmaster.Base.{ℕ, true, ◌≡◌, ◌↔◌, refl, List, [], ◌∷◌, some, Eq, nat_beq, value_at, eq_of_code}

pub data UnitRelationAtom : Type 0 where
  unit_atom_pull_in_start unit_atom_pull_in_start_ignored unit_atom_pull_in_verify :
      UnitRelationAtom
  unit_atom_pull_in_stop unit_atom_pull_in_stop_ignored unit_atom_add_stop_when_unneeded_queue :
      UnitRelationAtom
  unit_atom_pins_stop_when_unneeded unit_atom_cannot_be_active_without : UnitRelationAtom
  unit_atom_add_cannot_be_active_without_queue unit_atom_start_steadily : UnitRelationAtom
  unit_atom_add_start_when_upheld_queue unit_atom_retro_active_start_replace : UnitRelationAtom
  unit_atom_retro_active_start_fail unit_atom_retro_active_stop_on_start : UnitRelationAtom
  unit_atom_retro_active_stop_on_stop unit_atom_propagate_start_failure : UnitRelationAtom
  unit_atom_propagate_stop_failure unit_atom_propagate_inactive_start_as_failure : UnitRelationAtom
  unit_atom_propagate_stop unit_atom_propagate_restart : UnitRelationAtom
  unit_atom_add_default_target_dependency_queue unit_atom_default_target_dependencies :
      UnitRelationAtom
  unit_atom_before unit_atom_after unit_atom_on_success unit_atom_on_failure : UnitRelationAtom
  unit_atom_triggers unit_atom_triggered_by unit_atom_propagates_reload_to : UnitRelationAtom
  unit_atom_joins_name_space_of unit_atom_references unit_atom_referenced_by : UnitRelationAtom
  unit_atom_in_slice unit_atom_slice_of : UnitRelationAtom

abbrev pub atom_code : UnitRelationAtom → ℕ
atom_code unit_atom_pull_in_start = 0
atom_code unit_atom_pull_in_start_ignored = 1
atom_code unit_atom_pull_in_verify = 2
atom_code unit_atom_pull_in_stop = 3
atom_code unit_atom_pull_in_stop_ignored = 4
atom_code unit_atom_add_stop_when_unneeded_queue = 5
atom_code unit_atom_pins_stop_when_unneeded = 6
atom_code unit_atom_cannot_be_active_without = 7
atom_code unit_atom_add_cannot_be_active_without_queue = 8
atom_code unit_atom_start_steadily = 9
atom_code unit_atom_add_start_when_upheld_queue = 10
atom_code unit_atom_retro_active_start_replace = 11
atom_code unit_atom_retro_active_start_fail = 12
atom_code unit_atom_retro_active_stop_on_start = 13
atom_code unit_atom_retro_active_stop_on_stop = 14
atom_code unit_atom_propagate_start_failure = 15
atom_code unit_atom_propagate_stop_failure = 16
atom_code unit_atom_propagate_inactive_start_as_failure = 17
atom_code unit_atom_propagate_stop = 18
atom_code unit_atom_propagate_restart = 19
atom_code unit_atom_add_default_target_dependency_queue = 20
atom_code unit_atom_default_target_dependencies = 21
atom_code unit_atom_before = 22
atom_code unit_atom_after = 23
atom_code unit_atom_on_success = 24
atom_code unit_atom_on_failure = 25
atom_code unit_atom_triggers = 26
atom_code unit_atom_triggered_by = 27
atom_code unit_atom_propagates_reload_to = 28
atom_code unit_atom_joins_name_space_of = 29
atom_code unit_atom_references = 30
atom_code unit_atom_referenced_by = 31
atom_code unit_atom_in_slice = 32
atom_code unit_atom_slice_of = 33

abbrev pub all_atoms : List UnitRelationAtom
all_atoms =
    unit_atom_pull_in_start ∷ unit_atom_pull_in_start_ignored ∷ unit_atom_pull_in_verify
    ∷ unit_atom_pull_in_stop ∷ unit_atom_pull_in_stop_ignored
    ∷ unit_atom_add_stop_when_unneeded_queue ∷ unit_atom_pins_stop_when_unneeded
    ∷ unit_atom_cannot_be_active_without ∷ unit_atom_add_cannot_be_active_without_queue
    ∷ unit_atom_start_steadily ∷ unit_atom_add_start_when_upheld_queue
    ∷ unit_atom_retro_active_start_replace ∷ unit_atom_retro_active_start_fail
    ∷ unit_atom_retro_active_stop_on_start ∷ unit_atom_retro_active_stop_on_stop
    ∷ unit_atom_propagate_start_failure ∷ unit_atom_propagate_stop_failure
    ∷ unit_atom_propagate_inactive_start_as_failure ∷ unit_atom_propagate_stop
    ∷ unit_atom_propagate_restart ∷ unit_atom_add_default_target_dependency_queue
    ∷ unit_atom_default_target_dependencies ∷ unit_atom_before ∷ unit_atom_after
    ∷ unit_atom_on_success ∷ unit_atom_on_failure ∷ unit_atom_triggers ∷ unit_atom_triggered_by
    ∷ unit_atom_propagates_reload_to ∷ unit_atom_joins_name_space_of ∷ unit_atom_references
    ∷ unit_atom_referenced_by ∷ unit_atom_in_slice ∷ unit_atom_slice_of ∷ []

pub atom_index : (x : UnitRelationAtom) → value_at all_atoms (atom_code x) ≡ some x
atom_index unit_atom_pull_in_start = refl
atom_index _ = refl

pub atom_beq_iff : (a b : UnitRelationAtom) → (nat_beq (atom_code a) (atom_code b) ≡ true) ↔ (a ≡ b)
atom_beq_iff = eq_of_code atom_code all_atoms atom_index

instance abbrev pub atom_eq : Eq UnitRelationAtom
atom_eq = record { beq = λ a b. nat_beq (atom_code a) (atom_code b); beq_iff = atom_beq_iff }
