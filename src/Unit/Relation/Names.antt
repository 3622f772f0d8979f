-- ===== src/Unit/Relation/Names.antt =====
-- core/lib/unit/deps.rs: `UnitRelations`, the kinds of dependency between two units.
use sysmaster.Base.{ℕ, true, ◌≡◌, ◌↔◌, refl, List, [], ◌∷◌, some, Eq, nat_beq, value_at, eq_of_code}

pub data UnitRelations : Type 0 where
  unit_requires unit_requisite unit_wants unit_binds_to unit_part_of unit_up_holds : UnitRelations
  unit_requires_by unit_requisite_of unit_wants_by unit_bound_by unit_consists_of : UnitRelations
  unit_up_held_by unit_conflicts unit_conflicted_by unit_before unit_after unit_on_success :
      UnitRelations
  unit_on_success_of unit_on_failure unit_on_failure_of unit_triggers unit_triggered_by :
      UnitRelations
  unit_propagates_reload_to unit_reload_propagated_from unit_propagates_stop_to : UnitRelations
  unit_stop_propagated_from unit_joins_name_space_of unit_references unit_referenced_by :
      UnitRelations
  unit_in_slice unit_slice_of : UnitRelations

abbrev pub relation_code : UnitRelations → ℕ
relation_code unit_requires = 0
relation_code unit_requisite = 1
relation_code unit_wants = 2
relation_code unit_binds_to = 3
relation_code unit_part_of = 4
relation_code unit_up_holds = 5
relation_code unit_requires_by = 6
relation_code unit_requisite_of = 7
relation_code unit_wants_by = 8
relation_code unit_bound_by = 9
relation_code unit_consists_of = 10
relation_code unit_up_held_by = 11
relation_code unit_conflicts = 12
relation_code unit_conflicted_by = 13
relation_code unit_before = 14
relation_code unit_after = 15
relation_code unit_on_success = 16
relation_code unit_on_success_of = 17
relation_code unit_on_failure = 18
relation_code unit_on_failure_of = 19
relation_code unit_triggers = 20
relation_code unit_triggered_by = 21
relation_code unit_propagates_reload_to = 22
relation_code unit_reload_propagated_from = 23
relation_code unit_propagates_stop_to = 24
relation_code unit_stop_propagated_from = 25
relation_code unit_joins_name_space_of = 26
relation_code unit_references = 27
relation_code unit_referenced_by = 28
relation_code unit_in_slice = 29
relation_code unit_slice_of = 30

abbrev pub all_relations : List UnitRelations
all_relations =
    unit_requires ∷ unit_requisite ∷ unit_wants ∷ unit_binds_to ∷ unit_part_of ∷ unit_up_holds
    ∷ unit_requires_by ∷ unit_requisite_of ∷ unit_wants_by ∷ unit_bound_by ∷ unit_consists_of
    ∷ unit_up_held_by ∷ unit_conflicts ∷ unit_conflicted_by ∷ unit_before ∷ unit_after
    ∷ unit_on_success ∷ unit_on_success_of ∷ unit_on_failure ∷ unit_on_failure_of ∷ unit_triggers
    ∷ unit_triggered_by ∷ unit_propagates_reload_to ∷ unit_reload_propagated_from
    ∷ unit_propagates_stop_to ∷ unit_stop_propagated_from ∷ unit_joins_name_space_of
    ∷ unit_references ∷ unit_referenced_by ∷ unit_in_slice ∷ unit_slice_of ∷ []

pub relation_index : (x : UnitRelations) → value_at all_relations (relation_code x) ≡ some x
relation_index unit_requires = refl
relation_index _ = refl

pub relation_beq_iff :
    (a b : UnitRelations) → (nat_beq (relation_code a) (relation_code b) ≡ true) ↔ (a ≡ b)
relation_beq_iff = eq_of_code relation_code all_relations relation_index

instance abbrev pub relation_eq : Eq UnitRelations
relation_eq = record {
  beq = λ a b. nat_beq (relation_code a) (relation_code b);
  beq_iff = relation_beq_iff;
}
