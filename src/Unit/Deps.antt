-- ===== src/Unit/Deps.antt =====
-- core/bin/unit/datastore/deps.rs: the dependencies between units, in both directions, and their copy
-- in the database. A unit stands for itself by its id; `none` is a panic.
pub mod Lookup
pub mod Mirror
pub mod Changed
pub mod Removed
use sysmaster.Base.{
  ℕ, Bool, true, false, ◌||◌, List, [], ◌∷◌, ◌++◌, map, Option, none, some, HashMap, get, insert,
  remove, contains_key, keys, ◌==◌, string_eq, String, assert, ◌>>=◌, ◌>>◌, if◌then◌else◌,
}
use sysmaster.Unit.Relation.Names.{UnitRelations, relation_eq, unit_references}
use sysmaster.Unit.Relation.AtomNames.{UnitRelationAtom}
use sysmaster.Unit.Relation.Inverse.{unit_relation_to_inverse}
use sysmaster.Unit.Relation.FromAtom.{unit_relation_from_unique_atom}

abbrev pub UnitId : Type 0
UnitId = String

pub record UnitDepMask : Type 0 where
  pub source : ℕ
  pub dest : ℕ

abbrev pub Dests : Type 0
Dests = HashMap UnitId UnitDepMask

abbrev pub Relations : Type 0
Relations = HashMap UnitRelations Dests

abbrev pub DepTable : Type 0
DepTable = HashMap UnitId Relations

abbrev pub or_new {ℓ κ} : {A : Type ℓ} {B : Type κ} → Option (HashMap A B) → HashMap A B
or_new none = []
or_new (some m) = m

-- `get_mut_sv_pad` and `get_mut_dv_pad`: an entry that is missing is made.
unfoldable pub get_sv_pad : DepTable → UnitId → Relations
get_sv_pad t source = or_new (get t source)

unfoldable pub get_dv_pad : DepTable → UnitId → UnitRelations → Dests
unfolding get_sv_pad
get_dv_pad t source relation = or_new (get (get_sv_pad t source) relation)

unfoldable pub insert_one_way : DepTable → UnitId → UnitRelations → UnitId → UnitDepMask → DepTable
unfolding get_sv_pad get_dv_pad
insert_one_way t source relation dest mask =
    insert t source
      (insert (get_sv_pad t source) relation (insert (get_dv_pad t source relation) dest mask))

abbrev pub is_empty_map {ℓ κ} : {A : Type ℓ} {B : Type κ} → HashMap A B → Bool
is_empty_map [] = true
is_empty_map (x ∷ xs) = false

-- The three levels, from the bottom up.
abbrev pub shrink_sv : DepTable → UnitId → Relations → DepTable
shrink_sv t source sv = if is_empty_map sv then remove t source else insert t source sv

abbrev pub shrink_dv : DepTable → UnitId → Relations → UnitRelations → Dests → DepTable
shrink_dv t source sv relation map =
    shrink_sv t source (if is_empty_map map then remove sv relation else insert sv relation map)

abbrev pub remove_dv :
    DepTable → UnitId → Relations → UnitRelations → UnitId → Option Dests → DepTable
remove_dv t source sv relation dest none = t
remove_dv t source sv relation dest (some map) = shrink_dv t source sv relation (remove map dest)

abbrev pub remove_sv : DepTable → UnitId → UnitRelations → UnitId → Option Relations → DepTable
remove_sv t source relation dest none = t
remove_sv t source relation dest (some sv) = remove_dv t source sv relation dest (get sv relation)

unfoldable pub remove_one_way : DepTable → UnitId → UnitRelations → UnitId → DepTable
remove_one_way t source relation dest = remove_sv t source relation dest (get t source)

-- `UnitDepData`, with the tables of `UnitRe` that it reads and writes: the ids that have a base
-- entry, and the dependencies of each id.
pub record DepData : Type 0 where
  pub t : DepTable
  pub base : UnitId → Bool
  pub dep : HashMap UnitId (List (UnitRelations × UnitId))

with_relation : UnitRelations → List UnitId → List (UnitRelations × UnitId)
with_relation r [] = []
with_relation r (d ∷ ds) = (r, d) ∷ with_relation r ds

unfoldable pub flatten : Relations → List (UnitRelations × UnitId)
unfolding with_relation
flatten [] = []
flatten ((relation, dv) ∷ sv) = with_relation relation (keys dv) ++ flatten sv

unfoldable pub db_update : DepData → UnitId → Option DepData
unfolding flatten
db_update d unit = do
  assert (d.base unit)
  some (record d { dep = insert d.dep unit (flatten (or_new (get d.t unit))) })

-- Both directions of one dependency, as `insert` enters them.
unfoldable pub insert_both : DepTable → UnitId → UnitRelations → UnitId → ℕ → DepTable
unfolding insert_one_way
insert_both t source relation dest source_mask =
    let mask : UnitDepMask = record { source = source_mask; dest = 0 } in
    let mask_inverse : UnitDepMask = record { source = 0; dest = source_mask } in
    insert_one_way (insert_one_way t source relation dest mask) dest
      (unit_relation_to_inverse relation) source mask_inverse

unfoldable pub insert_dep : DepData → UnitId → UnitRelations → UnitId → Bool → ℕ → Option DepData
unfolding insert_both db_update
insert_dep d source relation dest reference source_mask = if source == dest then some d else do
  let t1 = insert_both d.t source relation dest source_mask
  let t2 = if reference then insert_both t1 source unit_references dest source_mask else t1
  d' ← db_update (record d { t = t2 }) source
  db_update d' dest

unfoldable pub remove_both : DepTable → UnitId → UnitRelations → UnitId → DepTable
unfolding remove_one_way
remove_both t source relation dest =
    remove_one_way (remove_one_way t source relation dest) dest (unit_relation_to_inverse relation)
      source

unfoldable pub remove_dep : DepData → UnitId → UnitRelations → UnitId → Option DepData
unfolding remove_both db_update
remove_dep d source relation dest = do
  d' ← db_update (record d { t = remove_both d.t source relation dest }) source
  db_update d' dest

unfoldable pub remove_all : DepData → UnitId → List (UnitRelations × UnitId) → Option DepData
remove_all d source [] = some d
remove_all d source ((relation, dest) ∷ removes) = do
  d' ← remove_dep d source relation dest
  remove_all d' source removes

abbrev remove_unit_with : DepData → UnitId → Option Relations → Option DepData
unfolding flatten remove_all
remove_unit_with d source none = some d
remove_unit_with d source (some sv) = remove_all d source (flatten sv)

unfoldable pub remove_unit : DepData → UnitId → Option DepData
unfolding remove_unit_with
remove_unit d source = remove_unit_with d source (get d.t source)

unfoldable pub gets : DepTable → UnitId → UnitRelations → List UnitId
gets t source relation = keys (or_new (get (or_new (get t source)) relation))

unfoldable pub is_dep_with : DepTable → UnitId → UnitRelations → UnitId → Bool
is_dep_with t source relation dest =
    contains_key (or_new (get (or_new (get t source)) relation)) dest

abbrev gets_all : DepTable → UnitId → List UnitRelations → List UnitId
unfolding gets
gets_all t source [] = []
gets_all t source (r ∷ rs) = gets t source r ++ gets_all t source rs

unfoldable pub gets_atom : DepTable → UnitId → UnitRelationAtom → List UnitId
unfolding gets_all unit_relation_from_unique_atom
gets_atom t source atom = gets_all t source (unit_relation_from_unique_atom atom)

abbrev is_dep_with_any : DepTable → UnitId → List UnitRelations → UnitId → Bool
unfolding is_dep_with
is_dep_with_any t source [] dest = false
is_dep_with_any t source (r ∷ rs) dest =
    is_dep_with t source r dest || is_dep_with_any t source rs dest

unfoldable pub is_dep_atom_with : DepTable → UnitId → UnitRelationAtom → UnitId → Bool
unfolding is_dep_with_any
is_dep_atom_with t source atom dest =
    is_dep_with_any t source (unit_relation_from_unique_atom atom) dest
