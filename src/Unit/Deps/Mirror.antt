-- ===== src/Unit/Deps/Mirror.antt =====
-- core/bin/unit/datastore/deps.rs: both directions of each dependency are there.
use sysmaster.Base.{ℕ, Bool, not, ◌&&◌, ◌||◌, ◌≡◌, refl, ◌==◌, string_eq, Eq, arith, ap, sym, ◌∙◌}
use sysmaster.Unit.Relation.Names.{UnitRelations, relation_eq}
use sysmaster.Unit.Relation.Inverse.{unit_relation_to_inverse}
use sysmaster.Unit.Relation.Tables.{unit_relation_to_inverse_twice}
use sysmaster.Unit.Deps.{
  UnitId, DepTable, insert_one_way, remove_one_way, is_dep_with, insert_both, remove_both,
}
use sysmaster.Unit.Deps.Lookup.{is_this, is_dep_with-insert_one_way, is_dep_with-remove_one_way}

-- A dependency is there exactly if its inverse is there at the other end.
abbrev pub IsMirror : DepTable → Type 0
IsMirror t =
    (s : UnitId) (r : UnitRelations) (d : UnitId)
    → is_dep_with t s r d ≡ is_dep_with t d (unit_relation_to_inverse r) s

module _ {ℓ κ} {K : Type ℓ} {J : Type κ} ⦃e : Eq K⦄ ⦃f : Eq J⦄ (inv : J → J)
    (twice : (r : J) → inv (inv r) ≡ r) where
  -- Asking for a dependency and for its inverse at the other end is the same.
  swap_ends :
      (s : K) (r : J) (d s' : K) (r' : J) (d' : K)
      → (d == s' && inv r == r' && s == d') ≡ (s == d' && r == inv r' && d == s')
  swap_ends s r d s' r' d' =
      ground (arith, f.beq_iff (inv r) r', f.beq_iff r (inv r'), twice r, twice r')

  both_ends :
      (s : K) (r : J) (d s' : K) (r' : J) (d' : K)
      → (s == s' && r == r' && d == d') ≡ (d == d' && inv r == inv r' && s == s')
  both_ends s r d s' r' d' =
      ground (arith, f.beq_iff r r', f.beq_iff (inv r) (inv r'), twice r, twice r')

ap2 : {A B C : Type 0} (f : A → B → C) {a a' : A} {b b' : B} → a ≡ a' → b ≡ b' → f a b ≡ f a' b'
ap2 f p q = rw (p, q) refl

or_swap : (a b c : Bool) → (a || (b || c)) ≡ ((b || a) || c)
or_swap a b c = ground arith

and_both : (a b c : Bool) → ((a && not b) && not c) ≡ (a && not (b || c))
and_both a b c = ground arith

or_comm : (a b : Bool) → (a || b) ≡ (b || a)
or_comm a b = ground arith

-- The dependency and its inverse.
abbrev pub is_either : UnitId → UnitRelations → UnitId → UnitId → UnitRelations → UnitId → Bool
is_either s r d s' r' d' =
    is_this s r d s' r' d' || is_this d (unit_relation_to_inverse r) s s' r' d'

pub is_dep_with-insert_both :
    (t : DepTable) (s : UnitId) (r : UnitRelations) (d : UnitId) (m : ℕ) (s' : UnitId)
    (r' : UnitRelations) (d' : UnitId)
    → is_dep_with (insert_both t s r d m) s' r' d'
      ≡ (is_either s r d s' r' d' || is_dep_with t s' r' d')
unfolding insert_both insert_one_way
is_dep_with-insert_both t s r d m s' r' d' =
    is_dep_with-insert_one_way (insert_one_way t s r d (record { source = m; dest = 0 })) d
      (unit_relation_to_inverse r) s (record { source = 0; dest = m }) s' r' d'
    ∙ ap (λ x. is_this d (unit_relation_to_inverse r) s s' r' d' || x)
        (is_dep_with-insert_one_way t s r d (record { source = m; dest = 0 }) s' r' d')
    ∙ or_swap (is_this d (unit_relation_to_inverse r) s s' r' d') (is_this s r d s' r' d')
        (is_dep_with t s' r' d')

pub is_dep_with-remove_both :
    (t : DepTable) (s : UnitId) (r : UnitRelations) (d : UnitId) (s' : UnitId) (r' : UnitRelations)
    (d' : UnitId)
    → is_dep_with (remove_both t s r d) s' r' d'
      ≡ (is_dep_with t s' r' d' && not (is_either s r d s' r' d'))
unfolding remove_both remove_one_way
is_dep_with-remove_both t s r d s' r' d' =
    is_dep_with-remove_one_way (remove_one_way t s r d) d (unit_relation_to_inverse r) s s' r' d'
    ∙ ap (λ x. x && not (is_this d (unit_relation_to_inverse r) s s' r' d'))
        (is_dep_with-remove_one_way t s r d s' r' d')
    ∙ and_both (is_dep_with t s' r' d') (is_this s r d s' r' d')
        (is_this d (unit_relation_to_inverse r) s s' r' d')

is_either-inverse :
    (s : UnitId) (r : UnitRelations) (d s' : UnitId) (r' : UnitRelations) (d' : UnitId)
    → is_either s r d s' r' d' ≡ is_either s r d d' (unit_relation_to_inverse r') s'
is_either-inverse s r d s' r' d' =
    ap (λ x. is_this s r d s' r' d' || x)
      (swap_ends unit_relation_to_inverse unit_relation_to_inverse_twice s r d s' r' d')
    ∙ ap (λ x. x || is_this s r d d' (unit_relation_to_inverse r') s')
        (both_ends unit_relation_to_inverse unit_relation_to_inverse_twice s r d s' r' d')
    ∙ or_comm (is_this d (unit_relation_to_inverse r) s d' (unit_relation_to_inverse r') s')
        (is_this s r d d' (unit_relation_to_inverse r') s')

-- Entering both directions of a dependency keeps the table a mirror.
pub insert_both-IsMirror :
    (t : DepTable) (s : UnitId) (r : UnitRelations) (d : UnitId) (m : ℕ)
    → IsMirror t
    → IsMirror (insert_both t s r d m)
insert_both-IsMirror t s r d m h s' r' d' =
    is_dep_with-insert_both t s r d m s' r' d'
    ∙ ap2 (λ x y. x || y) (is_either-inverse s r d s' r' d') (h s' r' d')
    ∙ sym (is_dep_with-insert_both t s r d m d' (unit_relation_to_inverse r') s')

pub remove_both-IsMirror :
    (t : DepTable) (s : UnitId) (r : UnitRelations) (d : UnitId)
    → IsMirror t
    → IsMirror (remove_both t s r d)
remove_both-IsMirror t s r d h s' r' d' =
    is_dep_with-remove_both t s r d s' r' d'
    ∙ ap2 (λ x y. x && not y) (h s' r' d') (is_either-inverse s r d s' r' d')
    ∙ sym (is_dep_with-remove_both t s r d d' (unit_relation_to_inverse r') s')
