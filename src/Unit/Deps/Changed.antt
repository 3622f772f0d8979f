-- ===== src/Unit/Deps/Changed.antt =====
-- core/bin/unit/datastore/deps.rs: entering and taking out one dependency.
use sysmaster.Base.{
  ℕ, Bool, true, false, not, ◌&&◌, ◌||◌, ◌≡◌, refl, some, ◌==◌, string_eq, if◌then◌else◌, ap, ◌∙◌,
  get, insert, get-insert_self,
}
use sysmaster.Unit.Relation.Names.{UnitRelations, unit_references}
use sysmaster.Unit.Deps.{
  UnitId, DepTable, DepData, is_dep_with, insert_both, remove_both, insert_dep, remove_dep,
  db_update, flatten, or_new,
}
use sysmaster.Unit.Deps.Mirror.{
  IsMirror, is_either, is_dep_with-insert_both, is_dep_with-remove_both, insert_both-IsMirror,
  remove_both-IsMirror,
}

-- The table after `insert`.
abbrev pub inserted : DepData → UnitId → UnitRelations → UnitId → Bool → ℕ → DepTable
inserted d s r e reference m =
    let t1 = insert_both d.t s r e m in
    if reference then insert_both t1 s unit_references e m else t1

db_updated : DepData → UnitId → DepTable → DepData
db_updated d u t = record d { t = t; dep = insert d.dep u (flatten (or_new (get t u))) }

insert_dep_steps :
    (d : DepData) (s : UnitId) (r : UnitRelations) (e : UnitId) (reference : Bool) (m : ℕ)
    → (s == e) ≡ false
    → d.base s ≡ true
    → d.base e ≡ true
    → insert_dep d s r e reference m
      ≡ some (
          db_updated
            (db_updated d s (inserted d s r e reference m))
            e
            (inserted d s r e reference m))
unfolding insert_dep db_update db_updated
insert_dep_steps d s r e reference m ne b b' = rw (ne, b, b') refl

inserted-IsMirror :
    (d : DepData) (s : UnitId) (r : UnitRelations) (e : UnitId) (reference : Bool) (m : ℕ)
    → IsMirror d.t
    → IsMirror (inserted d s r e reference m)
inserted-IsMirror d s r e true m h =
    insert_both-IsMirror (insert_both d.t s r e m) s unit_references e m
      (insert_both-IsMirror d.t s r e m h)
inserted-IsMirror d s r e false m h = insert_both-IsMirror d.t s r e m h

is_dep_with-inserted :
    (d : DepData) (s : UnitId) (r : UnitRelations) (e : UnitId) (reference : Bool) (m : ℕ)
    (s' : UnitId) (r' : UnitRelations) (e' : UnitId)
    → is_dep_with (inserted d s r e reference m) s' r' e' ≡ (
        (reference && is_either s unit_references e s' r' e')
        || (is_either s r e s' r' e' || is_dep_with d.t s' r' e'))
is_dep_with-inserted d s r e true m s' r' e' =
    is_dep_with-insert_both (insert_both d.t s r e m) s unit_references e m s' r' e'
    ∙ ap (λ x. is_either s unit_references e s' r' e' || x)
        (is_dep_with-insert_both d.t s r e m s' r' e')
is_dep_with-inserted d s r e false m s' r' e' = is_dep_with-insert_both d.t s r e m s' r' e'

-- Between two different units that have a base entry, where the table is a mirror, entering a
-- dependency does not panic. The table stays a mirror and has what it had, the dependency and its
-- inverse, and, if that is asked for, the two references; nothing else. The copy of the
-- destination in the database is brought up to date.
pub insert_dep_lem :
    (d : DepData) (s : UnitId) (r : UnitRelations) (e : UnitId) (reference : Bool) (m : ℕ)
    → (s == e) ≡ false
    → d.base s ≡ true
    → d.base e ≡ true
    → IsMirror d.t
    → (d' : DepData) × (insert_dep d s r e reference m ≡ some d')
      × IsMirror d'.t
      × ((s' : UnitId) (r' : UnitRelations) (e' : UnitId)
          → is_dep_with d'.t s' r' e' ≡ (
              (reference && is_either s unit_references e s' r' e')
              || (is_either s r e s' r' e' || is_dep_with d.t s' r' e')))
      × (get d'.dep e ≡ some (flatten (or_new (get d'.t e))))
unfolding db_updated
insert_dep_lem d s r e reference m ne b b' h = (
  db_updated (db_updated d s (inserted d s r e reference m)) e (inserted d s r e reference m),
  insert_dep_steps d s r e reference m ne b b',
  inserted-IsMirror d s r e reference m h,
  is_dep_with-inserted d s r e reference m,
  get-insert_self (insert d.dep s (flatten (or_new (get (inserted d s r e reference m) s)))) e
      (flatten (or_new (get (inserted d s r e reference m) e))),
)

remove_dep_steps :
    (d : DepData) (s : UnitId) (r : UnitRelations) (e : UnitId)
    → d.base s ≡ true
    → d.base e ≡ true
    → remove_dep d s r e
      ≡ some (db_updated (db_updated d s (remove_both d.t s r e)) e (remove_both d.t s r e))
unfolding remove_dep db_update db_updated
remove_dep_steps d s r e b b' = rw (b, b') refl

-- Between two units that have a base entry, where the table is a mirror, taking a dependency out
-- does not panic. The table stays a mirror and loses the dependency and its inverse and nothing
-- else, and the base entries stay.
pub remove_dep_lem :
    (d : DepData) (s : UnitId) (r : UnitRelations) (e : UnitId)
    → d.base s ≡ true
    → d.base e ≡ true
    → IsMirror d.t
    → (d' : DepData) × (remove_dep d s r e ≡ some d')
      × IsMirror d'.t
      × ((s' : UnitId) (r' : UnitRelations) (e' : UnitId)
          → is_dep_with d'.t s' r' e'
            ≡ (is_dep_with d.t s' r' e' && not (is_either s r e s' r' e')))
      × (d'.base ≡ d.base)
unfolding db_updated
remove_dep_lem d s r e b b' h = (
  db_updated (db_updated d s (remove_both d.t s r e)) e (remove_both d.t s r e),
  remove_dep_steps d s r e b b',
  remove_both-IsMirror d.t s r e h,
  is_dep_with-remove_both d.t s r e,
  refl,
)
