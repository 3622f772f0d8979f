-- ===== src/Unit/Tests.antt =====
-- core/bin/unit: the theorems at concrete units and relations.
use sysmaster.Base.{
  ℕ, true, not, ◌&&◌, ◌||◌, ◌≡◌, refl, none, some, List, [], ◌∷◌, get, contains_key, length,
  contains, if◌then◌else◌, string_eq, arith,
}
use sysmaster.Unit.Relation.Names.{UnitRelations, relation_eq, unit_wants, unit_references}
use sysmaster.Unit.Relation.AtomNames.{atom_eq, unit_atom_pull_in_start_ignored}
use sysmaster.Unit.Relation.ToAtom.{unit_relation_to_atom}
use sysmaster.Unit.Relation.FromAtom.{unit_relation_from_unique_atom}
use sysmaster.Unit.Relation.Inverse.{unit_relation_to_inverse}
use sysmaster.Unit.Relation.Tables.{
  unit_relation_to_inverse_twice, is_mismatch, unit_relation_to_atom_lem,
}
use sysmaster.Unit.Deps.{
  UnitId, DepTable, DepData, is_dep_with, insert_dep, remove_dep, remove_unit, flatten, or_new,
  insert_both,
}
use sysmaster.Unit.Deps.Mirror.{IsMirror, is_either, insert_both-IsMirror}
use sysmaster.Unit.Deps.Changed.{insert_dep_lem, remove_dep_lem}
use sysmaster.Unit.Deps.Removed.{HaveBase, IsRemoved, remove_unit_lem}
use sysmaster.Unit.StartLimit.{RateLimit, count_below, min, count_below_interval}

unit_relation_to_inverse_example :
    unit_relation_to_inverse (unit_relation_to_inverse unit_wants) ≡ unit_wants
unit_relation_to_inverse_example = unit_relation_to_inverse_twice unit_wants

unit_relation_to_atom_example :
    contains (unit_relation_to_atom unit_wants) unit_atom_pull_in_start_ignored ≡ (
      if is_mismatch unit_wants unit_atom_pull_in_start_ignored
      then not
          (contains (unit_relation_from_unique_atom unit_atom_pull_in_start_ignored) unit_wants)
      else contains (unit_relation_from_unique_atom unit_atom_pull_in_start_ignored) unit_wants)
unit_relation_to_atom_example = unit_relation_to_atom_lem unit_wants unit_atom_pull_in_start_ignored

no_deps-IsMirror : IsMirror []
unfolding is_dep_with get contains_key
no_deps-IsMirror s r d = refl

abbrev no_deps : DepData
no_deps = record { t = []; base = λ u. true; dep = [] }

-- After "a" wants "b".
one_dep : DepTable
unfolding insert_both
one_dep = insert_both [] "a" unit_wants "b" 1

one_dep-IsMirror : IsMirror one_dep
unfolding one_dep
one_dep-IsMirror = insert_both-IsMirror [] "a" unit_wants "b" 1 no_deps-IsMirror

abbrev wanting : DepData
wanting = record { t = one_dep; base = λ u. true; dep = [] }

insert_dep_example :
    (d' : DepData) × (insert_dep no_deps "a" unit_wants "b" true 1 ≡ some d')
    × IsMirror d'.t
    × ((s' : UnitId) (r' : UnitRelations) (e' : UnitId)
        → is_dep_with d'.t s' r' e' ≡ (
            (true && is_either "a" unit_references "b" s' r' e')
            || (is_either "a" unit_wants "b" s' r' e' || is_dep_with [] s' r' e')))
    × (get d'.dep "b" ≡ some (flatten (or_new (get d'.t "b"))))
insert_dep_example =
    insert_dep_lem no_deps "a" unit_wants "b" true 1 refl refl refl no_deps-IsMirror

remove_dep_example :
    (d' : DepData) × (remove_dep wanting "a" unit_wants "b" ≡ some d')
    × IsMirror d'.t
    × ((s' : UnitId) (r' : UnitRelations) (e' : UnitId)
        → is_dep_with d'.t s' r' e'
          ≡ (is_dep_with one_dep s' r' e' && not (is_either "a" unit_wants "b" s' r' e')))
    × (d'.base ≡ wanting.base)
remove_dep_example = remove_dep_lem wanting "a" unit_wants "b" refl refl one_dep-IsMirror

wanting-HaveBase : (rs : List (UnitRelations × UnitId)) → HaveBase wanting rs
wanting-HaveBase [] = tt
wanting-HaveBase ((r, e) ∷ rs) = (refl, wanting-HaveBase rs)

remove_unit_example :
    (d' : DepData) × (remove_unit wanting "a" ≡ some d') × IsRemoved one_dep "a" d'.t
remove_unit_example =
    remove_unit_lem wanting "a" refl (wanting-HaveBase (flatten (or_new (get one_dep "a"))))
      one_dep-IsMirror

-- Two starts in three seconds.
abbrev two_in_three : RateLimit
two_in_three = record { interval = 3; burst = 2; begin = none; nums = 0 }

count_below_example :
    (count_below (5 ∷ 6 ∷ 1000000005 ∷ []) two_in_three).0
    ≡ min (length {A = ℕ} (5 ∷ 6 ∷ 1000000005 ∷ [])) 2
count_below_example =
    count_below_interval 5 (6 ∷ 1000000005 ∷ []) two_in_three refl refl
      (omega arith, (omega arith, tt))
