-- ===== src/Job/Transaction/Grown.antt =====
-- core/bin/job/transaction.rs: how the stage grows while a request is expanded.
use sysmaster.Base.{
  ℕ, suc, ◌+◌, ◌≤◌, ◌<◌, Bool, true, false, ◌&&◌, ◌||◌, ◌≡◌, ◌⊎◌, refl, List, [], ◌∷◌, ◌++◌, length,
  some, ◌==◌, string_eq, if◌then◌else◌, arith, inl, inr, Bool-cases,
}
use sysmaster.Job.Kind.{JobKind, kind_eq, JobMode}
use sysmaster.Job.Rentry.{UnitId}
use sysmaster.Job.Table.Jobs.{Stage}
use sysmaster.Job.Transaction.{
  TransDb, Answer, ok, err, Expansion, and_then, trans_expand_check_input,
}
use sysmaster.Job.Transaction.Recorded.{staged, IsStage, IsRecorded}
use sysmaster.Job.Transaction.Pulls.{Ask, pulls, mapped, AllAsked, AllAsked-append, AllAsked-map}

-- Is this job one of the list?
abbrev pub has : List Ask → UnitId → JobKind → Bool
has [] v j = false
has ((u, k) ∷ us) v j = u == v && k == j || has us v j

-- How many jobs of the list are not staged.
unfoldable pub missing : List Ask → Stage → ℕ
missing [] s = 0
missing ((u, k) ∷ us) s = let rest = missing us s in if staged s u k then rest else suc rest

abbrev Kept : Stage → Stage → Type 0
Kept s s' = (v : UnitId) (j : JobKind) → staged s v j ≡ true → staged s' v j ≡ true

pub missing_le : (us : List Ask) (s s' : Stage) → Kept s s' → missing us s' ≤ missing us s
unfolding missing
missing_le [] s s' k = omega arith
missing_le ((u, i) ∷ us) s s' k = ground (arith, missing_le us s s' k, k u i)

missing_lt :
    (us : List Ask) (s s' : Stage) (v : UnitId) (j : JobKind)
    → Kept s s'
    → has us v j ≡ true
    → staged s v j ≡ false
    → staged s' v j ≡ true
    → missing us s' < missing us s
unfolding missing
missing_lt [] s s' v j k h o n = cc
missing_lt ((u, i) ∷ us) s s' v j k h o n = elim (Bool-cases (u == v && i == j)) [
  | inl same ↦
      ground (arith, same, missing_le us s s' k, string_eq.beq_iff u v, kind_eq.beq_iff i j)
  | inr other ↦ ground (arith, missing_lt us s s' v j k (ground (arith, h, other)) o n, k u i)
]

pub missing-length : (us : List Ask) (s : Stage) → missing us s ≤ length us
unfolding missing
missing-length [] s = omega arith
missing-length ((u, k) ∷ us) s = ground (arith, missing-length us s)

pub recorded-missing :
    (us : List Ask) (s s' : Stage) (v : UnitId) (j : JobKind)
    → IsRecorded s v j s'
    → has us v j ≡ true
    → staged s v j ≡ false
    → missing us s' < missing us s
recorded-missing us s s' v j r h n =
    missing_lt us s s' v j (λ w i e. ground (arith, r.stages w i, e)) h n
      (ground (arith, r.stages v j, string_eq.beq_iff v v, kind_eq.beq_iff j j))

-- The stage is sound, and there are ids for all jobs that may still come.
pub record IsGood (us : List Ask) (s : Stage) : Type 0 where
  pub stage : IsStage s
  pub room : length s.ja.ids + missing us s < 4294967296

-- A check of the input that passes wherever the request leads.
abbrev pub AllPass : TransDb → (UnitId → JobKind → Type 0) → Type 0
AllPass db Q =
    (v : UnitId) (i : JobKind) → Q v (mapped db v i) → trans_expand_check_input db v i ≡ ok

abbrev pub AllStaged : TransDb → Stage → List Ask → Type 0
AllStaged db s xs = AllAsked db (λ w i. staged s w i ≡ true) xs

-- One stage after another: it is still good, nothing was lost, what is new is allowed by `Q`, and
-- if every check passes, all that the new jobs pull in is there.
pub record IsGrown (db : TransDb) (mode : JobMode) (us : List Ask) (Q : UnitId → JobKind → Type 0)
    (s s' : Stage) : Type 0 where
  pub good : IsGood us s'
  pub kept : (v : UnitId) (j : JobKind) → staged s v j ≡ true → staged s' v j ≡ true
  pub only : (v : UnitId) (j : JobKind) → staged s' v j ≡ true → (staged s v j ≡ true) ⊎ Q v j
  pub complete :
      AllPass db Q
      → (v : UnitId) (j : JobKind) → staged s' v j ≡ true
      → (staged s v j ≡ true) ⊎ AllStaged db s' (pulls db.deps mode v j)

module _ (db : TransDb) (mode : JobMode) (us : List Ask) (Q : UnitId → JobKind → Type 0) where
  pub IsGrown-refl : (s : Stage) → IsGood us s → IsGrown db mode us Q s s
  IsGrown-refl s g = record {
    good = g;
    kept = λ v j e. e;
    only = λ v j e. inl e;
    complete = λ p v j e. inl e;
  }

  pub staged-kept :
      (s s' : Stage) (xs : List Ask)
      → IsGrown db mode us Q s s'
      → AllStaged db s xs
      → AllStaged db s' xs
  staged-kept s s' xs g a =
      AllAsked-map db (λ w i. staged s w i ≡ true) (λ w i. staged s' w i ≡ true) xs g.kept a

  pub IsGrown-trans :
      (s s1 s2 : Stage)
      → IsGrown db mode us Q s s1
      → IsGrown db mode us Q s1 s2
      → IsGrown db mode us Q s s2
  IsGrown-trans s s1 s2 g h = record {
    good = h.good;
    kept = λ v j e. h.kept v j (g.kept v j e);
    only = λ v j e. elim (h.only v j e) [ inl e1 ↦ g.only v j e1 | inr q ↦ inr q ];
    complete = λ p v j e. elim (h.complete p v j e) [
      | inl e1 ↦ elim (g.complete p v j e1) [
        | inl e0 ↦ inl e0
        | inr a ↦ inr (staged-kept s1 s2 (pulls db.deps mode v j) h a)
      ]
      | inr a ↦ inr a
    ];
  }

  -- An expansion from a stage ends, with a stage that has grown; if every check passes it answers
  -- `ok`, and the jobs of the list are staged.
  abbrev pub Grows : Expansion → Stage → List Ask → Type 0
  Grows x s xs =
      (a : Answer) × (s' : Stage) × (x ≡ some (a, s'))
      × IsGrown db mode us Q s s'
      × (AllPass db Q → (a ≡ ok) × AllStaged db s' xs)

  abbrev pub GrowsFrom : (Stage → Expansion) → Stage → List Ask → Type 0
  GrowsFrom f s xs = (s1 : Stage) → IsGrown db mode us Q s s1 → Grows (f s1) s1 xs

  then-on :
      (f : Stage → Expansion) (s s1 : Stage) (a : Answer) (xs ys : List Ask)
      → IsGrown db mode us Q s s1
      → (AllPass db Q → (a ≡ ok) × AllStaged db s1 xs)
      → GrowsFrom f s ys
      → Grows (and_then (some (a, s1)) f) s (xs ++ ys)
  then-on f s s1 (err e) xs ys g p h = (err e, s1, refl, g, λ q. cc ((p q).0))
  then-on f s s1 ok xs ys g p h =
      let (a, s2, e, g2, p2) = h s1 g in
      (
        a,
        s2,
        e,
        IsGrown-trans s s1 s2 g g2,
        λ q. (
          (p2 q).0,
          AllAsked-append db (λ w i. staged s2 w i ≡ true) xs ys (staged-kept s1 s2 xs g2 (p q).1)
              (p2 q).1,
        ),
      )

  pub then-Grows :
      (x : Expansion) (f : Stage → Expansion) (s : Stage) (xs ys : List Ask)
      → Grows x s xs
      → GrowsFrom f s ys
      → Grows (and_then x f) s (xs ++ ys)
  then-Grows x f s xs ys (a, s1, e, g, p) h = rw e (then-on f s s1 a xs ys g p h)
