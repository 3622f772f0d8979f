-- ===== src/Unit/Deps/Lookup.antt =====
-- core/bin/unit/datastore/deps.rs: the table of dependencies, read as a predicate.
use sysmaster.Base.{
  Bool, not, ◌&&◌, ◌||◌, ◌≡◌, refl, [], ◌∷◌, none, some, HashMap, get, insert, remove, contains_key,
  ◌==◌, string_eq, Eq, get-insert, get-remove, if◌then◌else◌, arith, Option-cases, inl, inr,
  is_some,
}
use sysmaster.Unit.Relation.Names.{UnitRelations, relation_eq}
use sysmaster.Unit.Deps.{
  UnitId, UnitDepMask, DepTable, or_new, is_empty_map, insert_one_way, remove_one_way, is_dep_with,
  get_sv_pad, get_dv_pad,
}

-- Is this the dependency that is asked for?
abbrev pub is_this : UnitId → UnitRelations → UnitId → UnitId → UnitRelations → UnitId → Bool
is_this s r d s' r' d' = s == s' && r == r' && d == d'

pub is_dep_with-insert_one_way :
    (t : DepTable) (s : UnitId) (r : UnitRelations) (d : UnitId) (m : UnitDepMask) (s' : UnitId)
    (r' : UnitRelations) (d' : UnitId)
    → is_dep_with (insert_one_way t s r d m) s' r' d'
      ≡ (is_this s r d s' r' d' || is_dep_with t s' r' d')
unfolding is_dep_with insert_one_way contains_key get_sv_pad get_dv_pad
is_dep_with-insert_one_way t s r d m s' r' d' = ground (
  arith,
  get-insert t s (insert (or_new (get t s)) r (insert (or_new (get (or_new (get t s)) r)) d m)) s',
  get-insert (or_new (get t s)) r (insert (or_new (get (or_new (get t s)) r)) d m) r',
  get-insert (or_new (get (or_new (get t s)) r)) d m d',
  string_eq.beq_iff s s',
  relation_eq.beq_iff r r',
)

module _ {ℓ κ μ} {K : Type ℓ} {J : Type κ} {V : Type μ} ⦃e : Eq K⦄ where
  -- One level of the table, after what was empty was taken out.
  get-shrunk :
      (m : HashMap K (HashMap J V)) (k : K) (v : HashMap J V) (k' : K)
      → or_new (get (if is_empty_map v then remove m k else insert m k v) k')
        ≡ (if k == k' then v else or_new (get m k'))
  get-shrunk m k [] k' = ground (arith, get-remove m k k')
  get-shrunk m k (x ∷ v) k' = ground (arith, get-insert m k (x ∷ v) k')

no_relation :
    (t : DepTable) (s : UnitId) (r : UnitRelations)
    → get t s ≡ none
    → get (or_new (get t s)) r ≡ none
unfolding get
no_relation t s r e = rw e refl

module _ {ℓ κ μ ν} {K : Type ℓ} {J : Type κ} {L : Type μ} {V : Type ν} ⦃e : Eq K⦄ ⦃f : Eq J⦄
    ⦃g : Eq L⦄ where
  -- The answers when the entries of the source and of the relation are there.
  found3 :
      (t : HashMap K (HashMap J (HashMap L V))) (s : K) (r : J) (d : L)
      (sv : HashMap J (HashMap L V)) (dv : HashMap L V) (s' : K) (r' : J) (d' : L)
      → get t s ≡ some sv
      → get sv r ≡ some dv
      → is_some (
          get
            (or_new (
              get
                (or_new (
                  get
                    (if is_empty_map (
                        if is_empty_map (remove dv d)
                        then remove sv r
                        else insert sv r (remove dv d))
                      then remove t s
                      else insert t s (
                          if is_empty_map (remove dv d)
                          then remove sv r
                          else insert sv r (remove dv d)))
                    s'))
                r'))
            d')
        ≡ (is_some (get (or_new (get (or_new (get t s')) r')) d')
            && not (s == s' && r == r' && d == d'))
  found3 t s r d sv dv s' r' d' h i = ground (
    arith,
    get-shrunk t s (if is_empty_map (remove dv d) then remove sv r else insert sv r (remove dv d))
        s',
    get-shrunk sv r (remove dv d) r',
    get-remove dv d d',
    e.beq_iff s s',
    f.beq_iff r r',
  )

  -- And when the entry of the relation is missing.
  none3 :
      (t : HashMap K (HashMap J (HashMap L V))) (s : K) (r : J) (d : L) (s' : K) (r' : J) (d' : L)
      → get (or_new (get t s)) r ≡ none
      → is_some (get (or_new (get (or_new (get t s')) r')) d') ≡ (
          is_some (get (or_new (get (or_new (get t s')) r')) d')
          && not (s == s' && r == r' && d == d'))
  unfolding get
  none3 t s r d s' r' d' h = ground (arith, e.beq_iff s s', f.beq_iff r r')

pub is_dep_with-remove_one_way :
    (t : DepTable) (s : UnitId) (r : UnitRelations) (d : UnitId) (s' : UnitId) (r' : UnitRelations)
    (d' : UnitId)
    → is_dep_with (remove_one_way t s r d) s' r' d'
      ≡ (is_dep_with t s' r' d' && not (is_this s r d s' r' d'))
unfolding remove_one_way is_dep_with contains_key
is_dep_with-remove_one_way t s r d s' r' d' = elim (Option-cases (get t s)) [
  | inl e ↦ rw e (none3 t s r d s' r' d' (no_relation t s r e))
  | inr (sv, e) ↦ elim (Option-cases (get sv r)) [
    | inl f ↦ rw (e, f) (none3 t s r d s' r' d' (rw e f))
    | inr (dv, f) ↦ rw (e, f) (found3 t s r d sv dv s' r' d' e f)
  ]
]
