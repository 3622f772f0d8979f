-- ===== src/Unit/Relation/Tables.antt =====
-- core/bin/unit/base/relation.rs, core/bin/unit/base/relation_atom.rs: how the tables of relations,
-- inverse relations and atoms fit together.
use sysmaster.Base.{
  ℕ, zero, suc, Bool, true, false, not, ◌&&◌, ◌≡◌, refl, some, List, [], ◌∷◌, contains, value_at,
  arith, if◌then◌else◌,
}
use sysmaster.Unit.Relation.Names.{
  UnitRelations, relation_eq, relation_code, all_relations, relation_index, unit_wants,
  unit_referenced_by,
}
use sysmaster.Unit.Relation.AtomNames.{
  UnitRelationAtom, atom_eq, atom_code, all_atoms, atom_index,
  unit_atom_add_default_target_dependency_queue, unit_atom_default_target_dependencies,
  unit_atom_references, unit_atom_referenced_by,
}
use sysmaster.Unit.Relation.ToAtom.{unit_relation_to_atom}
use sysmaster.Unit.Relation.FromAtom.{unit_relation_from_unique_atom}
use sysmaster.Unit.Relation.Inverse.{unit_relation_to_inverse}

abbrev all_of {ℓ} : {A : Type ℓ} → (A → Bool) → List A → Bool
all_of p [] = true
all_of p (x ∷ xs) = p x && all_of p xs

all_of_at {ℓ} :
    {A : Type ℓ} (p : A → Bool) (xs : List A) (i : ℕ) {x : A}
    → all_of p xs ≡ true
    → value_at xs i ≡ some x
    → p x ≡ true
all_of_at p [] i h e = cc
all_of_at p (y ∷ xs) zero h e = ground arith
all_of_at p (y ∷ xs) (suc i) h e = all_of_at p xs i (ground arith) e

-- The relation of the other end has this end's relation as its own inverse.
pub unit_relation_to_inverse_twice :
    (r : UnitRelations) → unit_relation_to_inverse (unit_relation_to_inverse r) ≡ r
unfolding unit_relation_to_inverse
unit_relation_to_inverse_twice r = ground arith

-- The pairs of which only one of the two tables of atoms knows.
abbrev pub is_mismatch : UnitRelations → UnitRelationAtom → Bool
is_mismatch unit_wants unit_atom_add_default_target_dependency_queue = true
is_mismatch unit_wants unit_atom_default_target_dependencies = true
is_mismatch unit_referenced_by unit_atom_references = true
is_mismatch unit_referenced_by unit_atom_referenced_by = true
is_mismatch _ _ = false

abbrev is_same : Bool → Bool → Bool
is_same true b = b
is_same false b = not b

is_same_iff : (a b : Bool) → is_same a b ≡ true → a ≡ b
is_same_iff a b h = ground arith

abbrev is_agreed : UnitRelations → UnitRelationAtom → Bool
unfolding unit_relation_to_atom unit_relation_from_unique_atom
is_agreed r a = is_same (contains (unit_relation_to_atom r) a) (
    if is_mismatch r a
    then not (contains (unit_relation_from_unique_atom a) r)
    else contains (unit_relation_from_unique_atom a) r)

all_agreed : all_of (λ r. all_of (is_agreed r) all_atoms) all_relations ≡ true
unfolding is_agreed
all_agreed = refl

-- A relation is listed for an atom exactly if the atom is listed for the relation, but for the four
-- pairs of `is_mismatch`, where exactly one of the two tables lists the other.
pub unit_relation_to_atom_lem :
    (r : UnitRelations) (a : UnitRelationAtom)
    → contains (unit_relation_to_atom r) a ≡ (
        if is_mismatch r a
        then not (contains (unit_relation_from_unique_atom a) r)
        else contains (unit_relation_from_unique_atom a) r)
unfolding is_agreed
unit_relation_to_atom_lem r a = is_same_iff _ _ (
    all_of_at (is_agreed r) all_atoms (atom_code a)
      (all_of_at (λ x. all_of (is_agreed x) all_atoms) all_relations (relation_code r) all_agreed
        (relation_index r))
      (atom_index a))
