-- ===== src/Unit/Relation/FromAtom.antt =====
-- core/bin/unit/base/relation_atom.rs: the relations of an atom.
use sysmaster.Base.{List, [], ◌∷◌}
use sysmaster.Unit.Relation.Names.{
  UnitRelations, unit_requires, unit_requisite, unit_wants, unit_binds_to, unit_part_of,
  unit_up_holds, unit_requires_by, unit_requisite_of, unit_wants_by, unit_bound_by,
  unit_consists_of, unit_up_held_by, unit_conflicts, unit_conflicted_by, unit_before, unit_after,
  unit_on_success, unit_on_failure, unit_triggers, unit_triggered_by, unit_propagates_reload_to,
  unit_propagates_stop_to, unit_joins_name_space_of, unit_references, unit_referenced_by,
  unit_in_slice, unit_slice_of,
}
use sysmaster.Unit.Relation.AtomNames.{
  UnitRelationAtom, unit_atom_pull_in_start, unit_atom_pull_in_start_ignored,
  unit_atom_pull_in_verify, unit_atom_pull_in_stop, unit_atom_pull_in_stop_ignored,
  unit_atom_add_stop_when_unneeded_queue, unit_atom_pins_stop_when_unneeded,
  unit_atom_cannot_be_active_without, unit_atom_add_cannot_be_active_without_queue,
  unit_atom_start_steadily, unit_atom_add_start_when_upheld_queue,
  unit_atom_retro_active_start_replace, unit_atom_retro_active_start_fail,
  unit_atom_retro_active_stop_on_start, unit_atom_retro_active_stop_on_stop,
  unit_atom_propagate_start_failure, unit_atom_propagate_stop_failure,
  unit_atom_propagate_inactive_start_as_failure, unit_atom_propagate_stop,
  unit_atom_propagate_restart, unit_atom_add_default_target_dependency_queue,
  unit_atom_default_target_dependencies, unit_atom_before, unit_atom_after, unit_atom_on_success,
  unit_atom_on_failure, unit_atom_triggers, unit_atom_triggered_by, unit_atom_propagates_reload_to,
  unit_atom_joins_name_space_of, unit_atom_references, unit_atom_referenced_by, unit_atom_in_slice,
  unit_atom_slice_of,
}

unfoldable pub unit_relation_from_unique_atom : UnitRelationAtom → List UnitRelations
unit_relation_from_unique_atom unit_atom_pull_in_start = unit_requires ∷ unit_binds_to ∷ []
unit_relation_from_unique_atom unit_atom_pull_in_start_ignored = unit_wants ∷ unit_up_holds ∷ []
unit_relation_from_unique_atom unit_atom_pull_in_verify = unit_requisite ∷ []
unit_relation_from_unique_atom unit_atom_pull_in_stop = unit_conflicts ∷ []
unit_relation_from_unique_atom unit_atom_pull_in_stop_ignored = unit_conflicted_by ∷ []
unit_relation_from_unique_atom unit_atom_add_stop_when_unneeded_queue =
    unit_requires ∷ unit_requisite ∷ unit_wants ∷ unit_binds_to ∷ unit_up_holds ∷ []
unit_relation_from_unique_atom unit_atom_pins_stop_when_unneeded =
    unit_requires_by ∷ unit_requisite_of ∷ unit_wants_by ∷ unit_bound_by ∷ unit_up_held_by ∷ []
unit_relation_from_unique_atom unit_atom_cannot_be_active_without = unit_binds_to ∷ []
unit_relation_from_unique_atom unit_atom_add_cannot_be_active_without_queue = unit_bound_by ∷ []
unit_relation_from_unique_atom unit_atom_start_steadily = unit_up_held_by ∷ []
unit_relation_from_unique_atom unit_atom_add_start_when_upheld_queue = unit_up_holds ∷ []
unit_relation_from_unique_atom unit_atom_retro_active_start_replace =
    unit_requires ∷ unit_binds_to ∷ unit_up_holds ∷ []
unit_relation_from_unique_atom unit_atom_retro_active_start_fail = unit_wants ∷ []
unit_relation_from_unique_atom unit_atom_retro_active_stop_on_start =
    unit_conflicts ∷ unit_conflicted_by ∷ []
unit_relation_from_unique_atom unit_atom_retro_active_stop_on_stop =
    unit_bound_by ∷ unit_propagates_stop_to ∷ []
unit_relation_from_unique_atom unit_atom_propagate_start_failure =
    unit_requires_by ∷ unit_requisite_of ∷ unit_bound_by ∷ []
unit_relation_from_unique_atom unit_atom_propagate_stop_failure = unit_conflicted_by ∷ []
unit_relation_from_unique_atom unit_atom_propagate_inactive_start_as_failure =
    unit_requisite_of ∷ []
unit_relation_from_unique_atom unit_atom_propagate_stop =
    unit_requires_by ∷ unit_requisite_of ∷ unit_bound_by ∷ unit_consists_of
    ∷ unit_propagates_stop_to ∷ []
unit_relation_from_unique_atom unit_atom_propagate_restart =
    unit_requires_by ∷ unit_requisite_of ∷ unit_bound_by ∷ unit_consists_of ∷ []
unit_relation_from_unique_atom unit_atom_add_default_target_dependency_queue =
    unit_requires ∷ unit_requisite ∷ unit_wants ∷ unit_binds_to ∷ unit_part_of ∷ unit_up_holds ∷ []
unit_relation_from_unique_atom unit_atom_default_target_dependencies =
    unit_requires_by ∷ unit_requisite_of ∷ unit_wants_by ∷ unit_bound_by ∷ unit_up_held_by ∷ []
unit_relation_from_unique_atom unit_atom_before = unit_before ∷ []
unit_relation_from_unique_atom unit_atom_after = unit_after ∷ []
unit_relation_from_unique_atom unit_atom_on_success = unit_on_success ∷ []
unit_relation_from_unique_atom unit_atom_on_failure = unit_on_failure ∷ []
unit_relation_from_unique_atom unit_atom_triggers = unit_triggers ∷ []
unit_relation_from_unique_atom unit_atom_triggered_by = unit_triggered_by ∷ []
unit_relation_from_unique_atom unit_atom_propagates_reload_to = unit_propagates_reload_to ∷ []
unit_relation_from_unique_atom unit_atom_joins_name_space_of = unit_joins_name_space_of ∷ []
unit_relation_from_unique_atom unit_atom_references = unit_references ∷ []
unit_relation_from_unique_atom unit_atom_referenced_by = unit_referenced_by ∷ []
unit_relation_from_unique_atom unit_atom_in_slice = unit_in_slice ∷ []
unit_relation_from_unique_atom unit_atom_slice_of = unit_slice_of ∷ []
