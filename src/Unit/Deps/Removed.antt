-- ===== src/Unit/Deps/Removed.antt =====
-- core/bin/unit/datastore/deps.rs: taking a whole unit out.
use sysmaster.Base.{
  Bool, true, false, not, ◌&&◌, ◌||◌, ◌≡◌, refl, List, [], ◌∷◌, ◌++◌, some, HashMap, ◌==◌,
  string_eq, Eq, arith, Bool-cases, Option-cases, inl, inr, ap, ◌∙◌, get, keys, is_some,
  contains_key, subst, ==-refl, ==→eq, ◌≢◌,
}
use sysmaster.Unit.Relation.Names.{UnitRelations, relation_eq}
use sysmaster.Unit.Deps.{
  UnitId, Relations, Dests, DepTable, DepData, is_dep_with, remove_all, remove_unit, flatten,
  with_relation, or_new, UnitDepMask,
}
use sysmaster.Unit.Relation.Inverse.{unit_relation_to_inverse}
use sysmaster.Unit.Deps.Lookup.{is_this}
use sysmaster.Unit.Deps.Mirror.{IsMirror, is_either}
use sysmaster.Unit.Deps.Changed.{remove_dep_lem}

-- Is it one of the dependencies of `s` in the list, or the inverse of one?
abbrev pub is_any_of :
    UnitId → List (UnitRelations × UnitId) → UnitId → UnitRelations → UnitId → Bool
is_any_of s [] s' r' e' = false
is_any_of s ((r, e) ∷ rs) s' r' e' = is_either s r e s' r' e' || is_any_of s rs s' r' e'

abbrev pub HaveBase : DepData → List (UnitRelations × UnitId) → Type 0
HaveBase d [] = Unit
HaveBase d ((r, e) ∷ rs) = (d.base e ≡ true) × HaveBase d rs

HaveBase-same :
    (d d' : DepData) (rs : List (UnitRelations × UnitId))
    → d'.base ≡ d.base
    → HaveBase d rs
    → HaveBase d' rs
HaveBase-same d d' [] same h = tt
HaveBase-same d d' ((r, e) ∷ rs) same h = (ap (λ b. b e) same ∙ h.0, HaveBase-same d d' rs same h.1)

and_any : (x a b : Bool) → ((x && not a) && not b) ≡ (x && not (a || b))
and_any x a b = ground arith

remove_all_lem :
    (rs : List (UnitRelations × UnitId)) (d : DepData) (s : UnitId)
    → d.base s ≡ true
    → HaveBase d rs
    → IsMirror d.t
    → (d' : DepData) × (remove_all d s rs ≡ some d')
      × IsMirror d'.t
      × ((s' : UnitId) (r' : UnitRelations) (e' : UnitId)
          → is_dep_with d'.t s' r' e' ≡ (is_dep_with d.t s' r' e' && not (is_any_of s rs s' r' e')))
unfolding remove_all
remove_all_lem [] d s b h m = (d, refl, m, λ s' r' e'. ground arith)
remove_all_lem ((r, e) ∷ rs) d s b h m =
    let (d1, e1, m1, at, same) = remove_dep_lem d s r e b h.0 m in
    let (d2, e2, m2, at2) =
      remove_all_lem rs d1 s (ap (λ x. x s) same ∙ b) (HaveBase-same d d1 rs same h.1) m1 in
    (
      d2,
      rw e1 e2,
      m2,
      λ s' r' e'.
          at2 s' r' e'
          ∙ ap (λ x. x && not (is_any_of s rs s' r' e')) (at s' r' e')
          ∙ and_any (is_dep_with d.t s' r' e') (is_either s r e s' r' e') (is_any_of s rs s' r' e'),
    )

is_any_of-append :
    (s : UnitId) (xs ys : List (UnitRelations × UnitId)) (s' : UnitId) (r' : UnitRelations)
    (e' : UnitId)
    → is_any_of s (xs ++ ys) s' r' e' ≡ (is_any_of s xs s' r' e' || is_any_of s ys s' r' e')
is_any_of-append s [] ys s' r' e' = refl
is_any_of-append s ((r, e) ∷ xs) ys s' r' e' =
    ap (λ x. is_either s r e s' r' e' || x) (is_any_of-append s xs ys s' r' e')
    ∙ or_assoc (is_either s r e s' r' e') (is_any_of s xs s' r' e') (is_any_of s ys s' r' e')
  where
    or_assoc : (a b c : Bool) → (a || (b || c)) ≡ ((a || b) || c)
    or_assoc a b c = ground arith

or_left : (a b : Bool) → a ≡ true → (a || b) ≡ true
or_left a b h = ground arith

or_right : (a b : Bool) → b ≡ true → (a || b) ≡ true
or_right a b h = ground arith

module _ {K V : Type 0} ⦃e : Eq K⦄ where
  get_hit : (j k : K) (v : V) (m : HashMap K V) → (j == k) ≡ true → get ((j, v) ∷ m) k ≡ some v
  unfolding get
  get_hit j k v m h = rw h refl

  get_miss : (j k : K) (v : V) (m : HashMap K V) → (j == k) ≡ false → get ((j, v) ∷ m) k ≡ get m k
  unfolding get
  get_miss j k v m h = rw h refl

is_either_self : (s : UnitId) (r : UnitRelations) (e : UnitId) → is_either s r e s r e ≡ true
is_either_self s r e = or_left (is_this s r e s r e) _ (rw (==-refl s, ==-refl r, ==-refl e) refl)

none_there : (e : UnitId) → is_some (get {K = UnitId} {V = UnitDepMask} [] e) ≢ true
unfolding get
none_there e h = cc

none_at :
    (r : UnitRelations) (e : UnitId)
    → is_some (get (or_new (get {K = UnitRelations} {V = Dests} [] r)) e) ≢ true
unfolding get
none_at r e h = cc

in_relation :
    (s : UnitId) (r : UnitRelations) (dv : HashMap UnitId UnitDepMask) (e : UnitId)
    → is_some (get dv e) ≡ true
    → is_any_of s (with_relation r (keys dv)) s r e ≡ true
unfolding with_relation
in_relation s r [] e h = absurd (none_there e h)
in_relation s r ((x, m) ∷ dv) e h = elim (Bool-cases (x == e)) [
  | inl same ↦
      or_left _ _
        (subst (λ z. is_either s r x s r z ≡ true) (==→eq x e same) (is_either_self s r x))
  | inr other ↦
      or_right _ _
        (in_relation s r dv e (subst (λ o. is_some o ≡ true) (get_miss x e m dv other) h))
]

in_flatten :
    (s : UnitId) (sv : Relations) (r : UnitRelations) (e : UnitId)
    → is_some (get (or_new (get sv r)) e) ≡ true
    → is_any_of s (flatten sv) s r e ≡ true
unfolding flatten
in_flatten s [] r e h = absurd (none_at r e h)
in_flatten s ((q, dv) ∷ sv) r e h = elim (Bool-cases (q == r)) [
  | inl same ↦
      is_any_of-append s (with_relation q (keys dv)) (flatten sv) s r e
      ∙ or_left _ _ (
          subst (λ z. is_any_of s (with_relation q (keys dv)) s z e ≡ true) (==→eq q r same)
            (in_relation s q dv e
              (subst (λ o. is_some (get (or_new o) e) ≡ true) (get_hit q r dv sv same) h)))
  | inr other ↦
      is_any_of-append s (with_relation q (keys dv)) (flatten sv) s r e
      ∙ or_right _ _ (
          in_flatten s sv r e
            (subst (λ o. is_some (get (or_new o) e) ≡ true) (get_miss q r dv sv other) h))
]

is_dep_with-source :
    (t : DepTable) (s : UnitId) (r : UnitRelations) (e : UnitId)
    → is_dep_with t s r e ≡ true
    → is_any_of s (flatten (or_new (get t s))) s r e ≡ true
unfolding is_dep_with contains_key
is_dep_with-source t s r e h = in_flatten s (or_new (get t s)) r e h

apart_either :
    (s : UnitId) (r : UnitRelations) (e s' : UnitId) (r' : UnitRelations) (e' : UnitId)
    → (s == s') ≡ false
    → (s == e') ≡ false
    → is_either s r e s' r' e' ≡ false
apart_either s r e s' r' e' ne ne' =
    rw (ne, ne') (both_false (e == s') (unit_relation_to_inverse r == r'))
  where
    both_false : (a b : Bool) → (a && b && false) ≡ false
    both_false a b = ground arith

apart_any :
    (s : UnitId) (rs : List (UnitRelations × UnitId)) (s' : UnitId) (r' : UnitRelations)
    (e' : UnitId)
    → (s == s') ≡ false
    → (s == e') ≡ false
    → is_any_of s rs s' r' e' ≡ false
apart_any s [] s' r' e' ne ne' = refl
apart_any s ((r, e) ∷ rs) s' r' e' ne ne' =
    rw (apart_either s r e s' r' e' ne ne') (apart_any s rs s' r' e' ne ne')

-- What taking a unit out leaves: nothing from it or to it, and all the rest.
pub record IsRemoved (t : DepTable) (s : UnitId) (t' : DepTable) : Type 0 where
  pub mirror : IsMirror t'
  pub from : (r : UnitRelations) (e : UnitId) → is_dep_with t' s r e ≡ false
  pub to : (r : UnitRelations) (e : UnitId) → is_dep_with t' e r s ≡ false
  pub rest :
      (s' : UnitId) (r' : UnitRelations) (e' : UnitId)
      → (s == s') ≡ false
      → (s == e') ≡ false
      → is_dep_with t' s' r' e' ≡ is_dep_with t s' r' e'

cut : {x a : Bool} → (x ≡ true → a ≡ true) → (x && not a) ≡ false
cut {x} {a} h = ground arith

remove_unit_steps :
    (d : DepData) (s : UnitId) {d' : DepData}
    → remove_all d s (flatten (or_new (get d.t s))) ≡ some d'
    → remove_unit d s ≡ some d'
unfolding remove_unit flatten remove_all
remove_unit_steps d s {d'} h = elim (Option-cases (get d.t s)) [
  | inl e ↦ rw e (subst (λ o. remove_all d s (flatten (or_new o)) ≡ some d') e h)
  | inr (sv, e) ↦ rw e (subst (λ o. remove_all d s (flatten (or_new o)) ≡ some d') e h)
]

-- Taking a unit out, where it and all that it depends on have a base entry and the table is a mirror,
-- does not panic: no dependency from it or to it is left, every other one stays, and the table is a
-- mirror still.
pub remove_unit_lem :
    (d : DepData) (s : UnitId)
    → d.base s ≡ true
    → HaveBase d (flatten (or_new (get d.t s)))
    → IsMirror d.t
    → (d' : DepData) × (remove_unit d s ≡ some d') × IsRemoved d.t s d'.t
remove_unit_lem d s b h m =
    let (d', e, m', at) = remove_all_lem (flatten (or_new (get d.t s))) d s b h m in
    let gone : (r : UnitRelations) (x : UnitId) → is_dep_with d'.t s r x ≡ false =
      λ r x. at s r x ∙ cut (is_dep_with-source d.t s r x) in
    (
      d',
      remove_unit_steps d s e,
      record {
        mirror = m';
        from = gone;
        to = λ r x. m' x r s ∙ gone (unit_relation_to_inverse r) x;
        rest = λ s' r' e' ne ne'.
            at s' r' e'
            ∙ keep (is_dep_with d.t s' r' e')
                (apart_any s (flatten (or_new (get d.t s))) s' r' e' ne ne');
      },
    )
  where
    keep : (x : Bool) {a : Bool} → a ≡ false → (x && not a) ≡ x
    keep x h = ground arith
