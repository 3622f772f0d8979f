-- ===== src/Job/Transaction/Closure.antt =====
-- core/bin/job/transaction.rs: the jobs on the stage are the closure of the request.
use sysmaster.Base.{
  ℕ, ◌+◌, ◌<◌, true, false, ◌≡◌, ◌≢◌, ◌⊎◌, ◌↔◌, ◌∙◌, ◌&&◌, ◌==◌, Bool, Bool-cases, string_eq, subst,
  refl, List, [], ◌∷◌, ◌++◌, length, some, arith, inl, inr,
}
use sysmaster.Job.Kind.{JobKind, kind_eq, JobMode}
use sysmaster.Job.Rentry.{UnitId}
use sysmaster.Job.Table.Jobs.{Stage}
use sysmaster.Job.Transaction.{TransDb, Answer, ok, job_trans_expand}
use sysmaster.Job.Transaction.Recorded.{staged, IsStage}
use sysmaster.Job.Transaction.Pulls.{
  Ask, pulls, mapped, AllAsked, AllAsked-split, Pulled, asked, pulled,
}
use sysmaster.Job.Transaction.Grown.{has, missing-length, AllPass, AllStaged, Grows}
use sysmaster.Job.Transaction.Checked.{IsClosed, expand_grows}

shift : (xs : List Ask) (a : Ask) (ys : List Ask) → xs ++ a ∷ ys ≡ (xs ++ a ∷ []) ++ ys
shift [] a ys = refl
shift (x ∷ xs) a ys = rw (shift xs a ys) refl

all-Pulled :
    (db : TransDb) (mode : JobMode) (unit : UnitId) (kind : JobKind) (v : UnitId) (j : JobKind)
    (xs ys : List Ask)
    → Pulled db mode unit kind v j
    → pulls db.deps mode v j ≡ xs ++ ys
    → AllAsked db (Pulled db mode unit kind) ys
all-Pulled db mode unit kind v j xs [] p e = tt
all-Pulled db mode unit kind v j xs ((w, i) ∷ ys) p e = (
  pulled v j xs ys w i p e,
  all-Pulled db mode unit kind v j (xs ++ (w, i) ∷ []) ys p (e ∙ shift xs (w, i) ys),
)

-- A finite list of all that the request leads to, and the ids for them.
pub record IsBounded (db : TransDb) (mode : JobMode) (unit : UnitId) (kind : JobKind)
    (us : List Ask) (s : Stage) : Type 0 where
  pub listed : (v : UnitId) (j : JobKind) → Pulled db mode unit kind v j → has us v j ≡ true
  pub room : length s.ja.ids + length us < 4294967296

bounded-IsClosed :
    (db : TransDb) (mode : JobMode) (unit : UnitId) (kind : JobKind) (us : List Ask) (s : Stage)
    → IsBounded db mode unit kind us s
    → IsClosed db mode us (Pulled db mode unit kind)
bounded-IsClosed db mode unit kind us s b = record {
  listed = b.listed;
  closed = λ v j p. all-Pulled db mode unit kind v j [] (pulls db.deps mode v j) p refl;
}

request-Grows :
    (db : TransDb) (mode : JobMode) (fuel : ℕ) (s : Stage) (unit : UnitId) (kind : JobKind)
    (us : List Ask)
    → IsStage s
    → IsBounded db mode unit kind us s
    → length us < fuel
    → Grows db mode us
        (Pulled db mode unit kind)
        (job_trans_expand db mode fuel s unit kind)
        s
        ((unit, kind) ∷ [])
request-Grows db mode fuel s unit kind us g b f =
    expand_grows db mode us (Pulled db mode unit kind) fuel
      (bounded-IsClosed db mode unit kind us s b) s unit kind
      (record { stage = g; room = omega (arith, b.room, missing-length us s) })
      (omega (arith, f, missing-length us s)) asked

-- Let a finite list hold all jobs that a request leads to, and let there be ids for as many. Then the
-- expansion ends, within one recursive call more than the list is long, and without a panic. What
-- was staged before is staged after it, and what is new is a job that the request leads to.
pub job_trans_expand_lem :
    (db : TransDb) (mode : JobMode) (fuel : ℕ) (s : Stage) (unit : UnitId) (kind : JobKind)
    (us : List Ask)
    → IsStage s
    → IsBounded db mode unit kind us s
    → length us < fuel
    → (a : Answer) × (s' : Stage) × (job_trans_expand db mode fuel s unit kind ≡ some (a, s'))
      × IsStage s'
      × ((v : UnitId) (j : JobKind) → staged s v j ≡ true → staged s' v j ≡ true)
      × ((v : UnitId) (j : JobKind)
          → staged s' v j ≡ true
          → (staged s v j ≡ true) ⊎ Pulled db mode unit kind v j)
job_trans_expand_lem db mode fuel s unit kind us g b f =
    let (a, s', e, r, p) = request-Grows db mode fuel s unit kind us g b f in
    (a, s', e, r.good.stage, r.kept, r.only)

Pulled-staged :
    (db : TransDb) (mode : JobMode) (unit : UnitId) (kind : JobKind) (s' : Stage)
    → staged s' unit (mapped db unit kind) ≡ true
    → ((v : UnitId) (j : JobKind) → staged s' v j ≡ true → AllStaged db s' (pulls db.deps mode v j))
    → (v : UnitId) (j : JobKind) → Pulled db mode unit kind v j
    → staged s' v j ≡ true
Pulled-staged db mode unit kind s' r c _ _ asked = r
Pulled-staged db mode unit kind s' r c _ _ (pulled v j xs ys w i p e) =
    (AllAsked-split db (λ x y. staged s' x y ≡ true) xs ((w, i) ∷ ys)
      (subst (AllStaged db s') e (c v j (Pulled-staged db mode unit kind s' r c v j p)))).1.0

-- From an empty stage, where the check passes for all that the request leads to, the expansion answers
-- `ok` and the jobs on the stage are exactly those that the request leads to.
pub job_trans_expand_closure :
    (db : TransDb) (mode : JobMode) (fuel : ℕ) (s : Stage) (unit : UnitId) (kind : JobKind)
    (us : List Ask)
    → IsStage s
    → ((v : UnitId) (j : JobKind) → staged s v j ≡ false)
    → IsBounded db mode unit kind us s
    → length us < fuel
    → AllPass db (Pulled db mode unit kind)
    → (s' : Stage) × (job_trans_expand db mode fuel s unit kind ≡ some (ok, s'))
      × ((v : UnitId) (j : JobKind) → (staged s' v j ≡ true) ↔ Pulled db mode unit kind v j)
job_trans_expand_closure db mode fuel s unit kind us g empty b f pass =
    let (a, s', e, r, p) = request-Grows db mode fuel s unit kind us g b f in
    let before : (v : UnitId) (j : JobKind) → staged s v j ≢ true =
      λ v j h. ground (arith, h, empty v j) in
    (
      s',
      ground (arith, e, (p pass).0),
      λ v j. (
        λ h. elim (r.only v j h) [ inl o ↦ absurd (before v j o) | inr q ↦ q ],
        Pulled-staged db mode unit kind s' ((p pass).1.0)
            (λ w i h. elim (r.complete pass w i h) [ inl o ↦ absurd (before w i o) | inr q ↦ q ]) v
            j,
      ),
    )

-- A test that a list of jobs is closed: whatever its jobs pull in is in it.
abbrev pub all_in : TransDb → List Ask → List Ask → Bool
all_in db us [] = true
all_in db us ((w, i) ∷ xs) = has us w (mapped db w i) && all_in db us xs

abbrev pub all_closed : TransDb → JobMode → List Ask → List Ask → Bool
all_closed db mode us [] = true
all_closed db mode us ((v, j) ∷ ts) =
    all_in db us (pulls db.deps mode v j) && all_closed db mode us ts

closed-at :
    (db : TransDb) (mode : JobMode) (us ts : List Ask) (v : UnitId) (j : JobKind)
    → all_closed db mode us ts ≡ true
    → has ts v j ≡ true
    → all_in db us (pulls db.deps mode v j) ≡ true
closed-at db mode us [] v j c h = cc
closed-at db mode us ((u, k) ∷ ts) v j c h = elim (Bool-cases (u == v && k == j)) [
  | inl same ↦
      subst (λ x. all_in db us (pulls db.deps mode x j) ≡ true)
        ((string_eq.beq_iff u v).0 (ground (arith, same)))
        (subst (λ x. all_in db us (pulls db.deps mode u x) ≡ true)
          ((kind_eq.beq_iff k j).0 (ground (arith, same))) (ground (arith, c)))
  | inr other ↦ closed-at db mode us ts v j (ground (arith, c)) (ground (arith, h, other))
]

all_in-member :
    (db : TransDb) (us xs ys : List Ask) (w : UnitId) (i : JobKind)
    → all_in db us (xs ++ (w, i) ∷ ys) ≡ true
    → has us w (mapped db w i) ≡ true
all_in-member db us [] ys w i h = ground (arith, h)
all_in-member db us (x ∷ xs) ys w i h = all_in-member db us xs ys w i (ground (arith, h))

pub all_in-AllAsked :
    (db : TransDb) (us xs : List Ask)
    → all_in db us xs ≡ true
    → AllAsked db (λ w i. has us w i ≡ true) xs
all_in-AllAsked db us [] h = tt
all_in-AllAsked db us ((w, i) ∷ xs) h =
    (ground (arith, h), all_in-AllAsked db us xs (ground (arith, h)))

pub closed-AllAsked :
    (db : TransDb) (mode : JobMode) (us : List Ask) (v : UnitId) (j : JobKind)
    → all_closed db mode us us ≡ true
    → has us v j ≡ true
    → AllAsked db (λ w i. has us w i ≡ true) (pulls db.deps mode v j)
closed-AllAsked db mode us v j c h = all_in-AllAsked db us _ (closed-at db mode us us v j c h)

-- A closed list that holds the request's own job holds all that the request leads to.
pub all_closed-Pulled :
    (db : TransDb) (mode : JobMode) (unit : UnitId) (kind : JobKind) (us : List Ask)
    → all_closed db mode us us ≡ true
    → has us unit (mapped db unit kind) ≡ true
    → (v : UnitId) (j : JobKind) → Pulled db mode unit kind v j
    → has us v j ≡ true
all_closed-Pulled db mode unit kind us c h _ _ asked = h
all_closed-Pulled db mode unit kind us c h _ _ (pulled v j xs ys w i p e) =
    all_in-member db us xs ys w i (
      subst (λ l. all_in db us l ≡ true) e
        (closed-at db mode us us v j c (all_closed-Pulled db mode unit kind us c h v j p)))
