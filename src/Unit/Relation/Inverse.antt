-- ===== src/Unit/Relation/Inverse.antt =====
-- core/bin/unit/base/relation.rs: the relation that the other end of a dependency has.
use sysmaster.Unit.Relation.Names.{
  UnitRelations, unit_requires, unit_requisite, unit_wants, unit_binds_to, unit_part_of,
  unit_up_holds, unit_requires_by, unit_requisite_of, unit_wants_by, unit_bound_by,
  unit_consists_of, unit_up_held_by, unit_conflicts, unit_conflicted_by, unit_before, unit_after,
  unit_on_success, unit_on_success_of, unit_on_failure, unit_on_failure_of, unit_triggers,
  unit_triggered_by, unit_propagates_reload_to, unit_reload_propagated_from,
  unit_propagates_stop_to, unit_stop_propagated_from, unit_joins_name_space_of, unit_references,
  unit_referenced_by, unit_in_slice, unit_slice_of,
}

unfoldable pub unit_relation_to_inverse : UnitRelations → UnitRelations
unit_relation_to_inverse unit_requires = unit_requires_by
unit_relation_to_inverse unit_requisite = unit_requisite_of
unit_relation_to_inverse unit_wants = unit_wants_by
unit_relation_to_inverse unit_binds_to = unit_bound_by
unit_relation_to_inverse unit_part_of = unit_consists_of
unit_relation_to_inverse unit_up_holds = unit_up_held_by
unit_relation_to_inverse unit_requires_by = unit_requires
unit_relation_to_inverse unit_requisite_of = unit_requisite
unit_relation_to_inverse unit_wants_by = unit_wants
unit_relation_to_inverse unit_bound_by = unit_binds_to
unit_relation_to_inverse unit_consists_of = unit_part_of
unit_relation_to_inverse unit_up_held_by = unit_up_holds
unit_relation_to_inverse unit_conflicts = unit_conflicted_by
unit_relation_to_inverse unit_conflicted_by = unit_conflicts
unit_relation_to_inverse unit_before = unit_after
unit_relation_to_inverse unit_after = unit_before
unit_relation_to_inverse unit_on_success = unit_on_success_of
unit_relation_to_inverse unit_on_success_of = unit_on_success
unit_relation_to_inverse unit_on_failure = unit_on_failure_of
unit_relation_to_inverse unit_on_failure_of = unit_on_failure
unit_relation_to_inverse unit_triggers = unit_triggered_by
unit_relation_to_inverse unit_triggered_by = unit_triggers
unit_relation_to_inverse unit_propagates_reload_to = unit_reload_propagated_from
unit_relation_to_inverse unit_reload_propagated_from = unit_propagates_reload_to
unit_relation_to_inverse unit_propagates_stop_to = unit_stop_propagated_from
unit_relation_to_inverse unit_stop_propagated_from = unit_propagates_stop_to
unit_relation_to_inverse unit_joins_name_space_of = unit_joins_name_space_of
unit_relation_to_inverse unit_references = unit_referenced_by
unit_relation_to_inverse unit_referenced_by = unit_references
unit_relation_to_inverse unit_in_slice = unit_slice_of
unit_relation_to_inverse unit_slice_of = unit_in_slice
