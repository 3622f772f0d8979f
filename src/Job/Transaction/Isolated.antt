-- ===== src/Job/Transaction/Isolated.antt =====
-- core/bin/job/transaction.rs: what isolating does to the stage of a start.
use sysmaster.Base.{
  ◌∙◌, subst, ℕ, ◌≤◌, ◌<◌, true, false, ◌≡◌, refl, List, [], ◌∷◌, length, some, HashMap, get,
  remove, get-remove, contains, contains_key, is_some, ◌==◌, string_eq, arith, inl, inr, Bool-cases,
}
use sysmaster.Job.Kind.{JobKind, start, stop, nop, kind_eq, JobMode, isolate, mode_eq}
use sysmaster.Job.Rentry.{UnitId}
use sysmaster.Job.Process.{job_merge_unit}
use sysmaster.Job.Heap.{Heap}
use sysmaster.Job.Junit.{JobUnit, suspends_kind_len, num_others}
use sysmaster.Job.Junit as Junit
use sysmaster.Job.Table.Units.{
  get_suspend, suspend_of, is_unit_empty, any_conflict, is_suspends_conflict_uv,
}
use sysmaster.Job.Table.Jobs.{JobTable, Stage}
use sysmaster.Job.Transaction.{
  TransDb, ok, err, err_conflict, Expansion, after_one, isolate_loop, trans_affect_isolate,
  job_trans_affect, job_trans_expand, job_trans_verify, trans_verify_is_conflict,
}
use sysmaster.Job.Transaction.Recorded.{staged}
use sysmaster.Job.Transaction.Pulls.{Ask, pulls, AllAsked}
use sysmaster.Job.Transaction.Grown.{
  has, missing-length, IsGood, AllPass, IsGrown, IsGrown-refl, IsGrown-trans, Grows,
}
use sysmaster.Job.Transaction.Checked.{expand_grows}

module _ {κ} {V : Type κ} where
  -- A key that is there counts.
  length-remove : (m : HashMap JobKind V) (k : JobKind) → length (remove m k) ≤ length m
  unfolding remove
  length-remove [] k = omega arith
  length-remove ((j, v) ∷ m) k = ground (arith, length-remove m k)

  length-remove_some :
      (m : HashMap JobKind V) (k : JobKind)
      → is_some (get m k) ≡ true
      → length (remove m k) < length m
  unfolding remove get
  length-remove_some [] k h = cc
  length-remove_some ((j, v) ∷ m) k h = ground (arith, length-remove m k, length-remove_some m k, h)

-- A unit for which a start and a stop wait conflicts with itself.
conflict_lem :
    (uv : JobUnit)
    → is_some (get uv.suspends start) ≡ true
    → is_some (get uv.suspends stop) ≡ true
    → Junit.is_suspends_conflict uv ≡ true
unfolding Junit.is_suspends_conflict suspends_kind_len num_others contains_key
conflict_lem uv a b =
    let m = uv.suspends in
    let m1 = remove m stop in
    let m2 = remove m1 start in
    ground (
      arith,
      a,
      b,
      length-remove_some m stop b,
      length-remove_some m1 start (ground (arith, a, get-remove m stop start)),
      length-remove_some m2 nop,
      get-remove m1 start nop,
      get-remove m stop nop,
    )

any_conflict-get :
    (m : HashMap UnitId JobUnit) (u : UnitId)
    → is_some (suspend_of (get m u) start) ≡ true
    → is_some (suspend_of (get m u) stop) ≡ true
    → any_conflict m ≡ true
unfolding any_conflict get
any_conflict-get [] u a b = cc
any_conflict-get ((v, uv) ∷ m) u a b = elim (Bool-cases (v == u)) [
  | inl e ↦ ground (arith, a, b, e, conflict_lem uv)
  | inr e ↦ ground (arith, a, b, e, any_conflict-get m u)
]

stage_conflict :
    (s : Stage) (u : UnitId)
    → staged s u start ≡ true
    → staged s u stop ≡ true
    → is_suspends_conflict_uv s.table.t_unit ≡ true
unfolding is_suspends_conflict_uv get_suspend
stage_conflict s u a b = any_conflict-get s.table.t_unit.t_data u a b

verify_conflict :
    (stage jobs : JobTable) (mode : JobMode) (h : Heap)
    → is_suspends_conflict_uv stage.t_unit ≡ true
    → job_trans_verify stage jobs mode h ≡ some (err err_conflict)
unfolding job_trans_verify trans_verify_is_conflict
verify_conflict stage jobs mode h c = rw c refl

-- A unit with a job on the stage is one that `is_unit_empty` answers true for.
staged-is_unit_empty :
    (s : Stage) (u : UnitId) (k : JobKind)
    → staged s u k ≡ true
    → is_unit_empty s.table.t_unit u ≡ true
unfolding is_unit_empty contains_key get_suspend
staged-is_unit_empty s u k e = ground (arith, e)

-- A finite list of jobs that holds a stop for each unit, and all that its jobs pull in.
pub record IsIsolable (db : TransDb) (us : List Ask) : Type 0 where
  pub stops : (o : UnitId) → contains db.all_units o ≡ true → has us o stop ≡ true
  pub closed :
      (v : UnitId) (j : JobKind)
      → has us v j ≡ true
      → AllAsked db (λ w i. has us w i ≡ true) (pulls db.deps isolate v j)

abbrev pub InList : List Ask → UnitId → JobKind → Type 0
InList us v j = has us v j ≡ true

module _ (db : TransDb) (us : List Ask) (fuel : ℕ) (u : UnitId) (iso : IsIsolable db us)
    (enough : length us < fuel) (pass : AllPass db (InList us))
    (free : db.ignore_on_isolate u ≡ false) where
  abbrev Isolates : List UnitId → Expansion → Stage → Type 0
  Isolates others x s =
      (s' : Stage) × (x ≡ some (ok, s'))
      × IsGrown db isolate us (InList us) s s'
      × (contains others u ≡ true → staged s' u stop ≡ true)

  -- A unit that the loop leaves out is not the one that starts.
  skip-on :
      (o : UnitId) (others : List UnitId) (x y : Expansion) (s : Stage)
      → x ≡ y
      → (o == u) ≡ false
      → Isolates others y s
      → Isolates (o ∷ others) x s
  skip-on o others x y s e ne (s', f, g, p) = (s', e ∙ f, g, λ c. p (ground (arith, c, ne)))

  stop-on :
      (o : UnitId) (others : List UnitId) (f : Stage → Expansion) (s : Stage)
      → Grows db isolate us
          (InList us)
          (job_trans_expand db isolate fuel s o stop)
          s
          ((o, stop) ∷ [])
      → ((s1 : Stage) → IsGrown db isolate us (InList us) s s1 → Isolates others (f s1) s1)
      → Isolates (o ∷ others) (after_one true (job_trans_expand db isolate fuel s o stop) f) s
  unfolding job_merge_unit
  stop-on o others f s (a, s1, e, g1, p1) rest =
      let (s2, e2, g2, p2) = rest s1 g1 in
      let stopped : staged s2 o stop ≡ true = g2.kept o stop ((p1 pass).1.0) in
      (
        s2,
        ground (arith, e, (p1 pass).0, e2),
        IsGrown-trans db isolate us (InList us) s s1 s2 g1 g2,
        λ c. elim (Bool-cases (o == u)) [
          | inl same ↦ subst (λ v. staged s2 v stop ≡ true) ((string_eq.beq_iff o u).0 same) stopped
          | inr other ↦ p2 (ground (arith, c, other))
        ],
      )

  expand-stop :
      (o : UnitId) (s : Stage)
      → has us o stop ≡ true
      → IsGood us s
      → Grows db isolate us
          (InList us)
          (job_trans_expand db isolate fuel s o stop)
          s
          ((o, stop) ∷ [])
  unfolding job_merge_unit
  expand-stop o s h g =
      expand_grows db isolate us (InList us) fuel
        (record { listed = λ v j e. e; closed = iso.closed }) s o stop g
        (omega (arith, enough, missing-length us s)) h

  isolate-list :
      (others : List UnitId) (s : Stage)
      → ((o : UnitId) → contains others o ≡ true → has us o stop ≡ true)
      → IsGood us s
      → staged s u start ≡ true
      → Isolates others (isolate_loop db isolate fuel others s) s
  unfolding isolate_loop
  isolate-list [] s stops g e = (s, refl, IsGrown-refl db isolate us (InList us) s g, λ c. cc)
  isolate-list (o ∷ others) s stops g e =
      let later : (v : UnitId) → contains others v ≡ true → has us v stop ≡ true =
        λ v c. stops v (ground (arith, c)) in
      elim (Bool-cases (db.ignore_on_isolate o)) [
        | inl i ↦
            skip-on o others _ (isolate_loop db isolate fuel others s) s (rw i refl)
              (ground (arith, i, free, string_eq.beq_iff o u)) (isolate-list others s later g e)
        | inr i ↦ elim (Bool-cases (is_unit_empty s.table.t_unit o)) [
          | inl b ↦ rw i (
              rw b (
                stop-on o others (isolate_loop db isolate fuel others) s
                  (expand-stop o s (stops o (ground (arith, string_eq.beq_iff o o))) g)
                  (λ s1 g1. isolate-list others s1 later g1.good (g1.kept u start e))))
          | inr b ↦
              skip-on o others _ (isolate_loop db isolate fuel others s) s (rw i (rw b refl))
                (ground (arith, b, staged-is_unit_empty s u start e, string_eq.beq_iff o u))
                (isolate-list others s later g e)
        ]
      ]

-- Let all checks pass, and let a finite list hold the stops of all units with what they lead to. When
-- the stage has a start of a unit that isolating does not spare, then isolating it, which should stop
-- only the other units, stops this one too, and the stage is refused with `Conflict`.
pub isolate_start_conflicts :
    (db : TransDb) (us : List Ask) (fuel : ℕ) (u : UnitId) (s : Stage) (jobs : JobTable)
    → IsIsolable db us
    → length us < fuel
    → AllPass db (InList us)
    → IsGood us s
    → db.ignore_on_isolate u ≡ false
    → contains db.all_units u ≡ true
    → staged s u start ≡ true
    → (s' : Stage) × (job_trans_affect db isolate fuel u start s ≡ some (ok, s'))
      × (staged s' u stop ≡ true)
      × (job_trans_verify s'.table jobs isolate s'.heap ≡ some (err err_conflict))
unfolding job_trans_affect trans_affect_isolate
isolate_start_conflicts db us fuel u s jobs iso enough pass g free c e =
    let (s', f, grown, p) =
      isolate-list db us fuel u iso enough pass free db.all_units s iso.stops g e in
    (
      s',
      f,
      p c,
      verify_conflict s'.table jobs isolate s'.heap
          (stage_conflict s' u (grown.kept u start e) (p c)),
    )
