-- ===== src/Job/Transaction/Expanded.antt =====
-- core/bin/job/transaction.rs: the loops of an expansion and the `match` over the kinds end with a stage
-- that has grown.
use sysmaster.Base.{
  ℕ, ◌<◌, Bool, true, false, ◌||◌, ◌≡◌, refl, sym, subst, List, [], ◌∷◌, some, ◌==◌, string_eq,
  if◌then◌else◌, arith, inl, inr, Bool-cases,
}
use sysmaster.Unit.Relation.AtomNames.{
  unit_atom_pull_in_start, unit_atom_pull_in_start_ignored, unit_atom_pull_in_verify,
  unit_atom_pull_in_stop,
}
use sysmaster.Unit.Deps.{DepTable, gets_atom}
use sysmaster.Job.Kind.{
  JobKind, start, stop, reload, restart, verify, nop, try_reload, try_restart, reload_or_start,
  kind_eq, JobMode, mode_eq, job_is_basic_op, ignore_dependencies, ignore_requirements,
}
use sysmaster.Job.Rentry.{UnitId}
use sysmaster.Job.Table.Jobs.{Stage}
use sysmaster.Job.Transaction.{
  TransDb, Answer, ok, Expansion, Expand, and_then, loop_answer, expand_loop, trans_expand_start,
  trans_expand_stop, trans_expand_reload, expand_kind, trans_is_expand,
}
use sysmaster.Job.Transaction.Pulls.{
  Ask, asks, start_pulls, kind_pulls, pulls, mapped, AllAsked, AllAsked-split,
}
use sysmaster.Job.Transaction.Grown.{
  missing, missing_le, IsGood, AllPass, AllStaged, IsGrown, IsGrown-refl, Grows, GrowsFrom,
  then-Grows,
}

pulls-free :
    (deps : DepTable) (mode : JobMode) (u : UnitId) (k : JobKind)
    → (mode == ignore_dependencies || mode == ignore_requirements) ≡ false
    → pulls deps mode u k ≡ kind_pulls deps u k
unfolding pulls
pulls-free deps mode u k i = rw i refl

pulls-nop : (deps : DepTable) (mode : JobMode) (u : UnitId) → pulls deps mode u nop ≡ []
unfolding pulls
pulls-nop deps mode u = ground arith

module _ (db : TransDb) (mode : JobMode) (us : List Ask) (Q : UnitId → JobKind → Type 0) where
  -- The recursive call, from stages on which fewer than `fuel` jobs are missing.
  abbrev pub Calls : Expand → ℕ → Type 0
  Calls rec fuel =
      (s : Stage) (u : UnitId) (k : JobKind)
      → IsGood us s
      → missing us s < fuel
      → Q u (mapped db u k)
      → Grows db mode us Q (rec s u k) s ((u, k) ∷ [])

  still_less :
      (fuel : ℕ) (s s' : Stage)
      → missing us s < fuel
      → IsGrown db mode us Q s s'
      → missing us s' < fuel
  still_less fuel s s' m g = omega (arith, missing_le us s s' g.kept, m)

  loop-one :
      (ignored : Bool) (a : Answer) (f : Stage → Expansion) (s s1 : Stage) (u : UnitId)
      (k : JobKind) (xs : List Ask)
      → IsGrown db mode us Q s s1
      → (AllPass db Q → (a ≡ ok) × AllStaged db s1 ((u, k) ∷ []))
      → GrowsFrom db mode us Q f s xs
      → Grows db mode us Q (and_then (some (loop_answer ignored a, s1)) f) s ((u, k) ∷ xs)
  loop-one ignored a f s s1 u k xs g p h =
      then-Grows db mode us Q (some (loop_answer ignored a, s1)) f s ((u, k) ∷ []) xs
        (loop_answer ignored a, s1, refl, g, λ q. (ground (arith, (p q).0), (p q).1)) h

  loop-Grows :
      (rec : Expand) (fuel : ℕ) (ignored : Bool) (kind : JobKind) (others : List UnitId) (s : Stage)
      → Calls rec fuel
      → IsGood us s
      → missing us s < fuel
      → AllAsked db Q (asks others kind)
      → Grows db mode us Q (expand_loop rec ignored kind others s) s (asks others kind)
  unfolding expand_loop
  loop-Grows rec fuel ignored kind [] s c g m q =
      (ok, s, refl, IsGrown-refl db mode us Q s g, λ p. (refl, tt))
  loop-Grows rec fuel ignored kind (o ∷ others) s c g m (q, qs) =
      let (a, s1, e, g1, p1) = c s o kind g m q in
      rw e (
        loop-one ignored a (expand_loop rec ignored kind others) s s1 o kind (asks others kind) g1
          p1
          (λ s2 g2.
            loop-Grows rec fuel ignored kind others s2 c g2.good (still_less fuel s s2 m g2) qs))

  module _ (rec : Expand) (fuel : ℕ) (calls : Calls rec fuel) where
    -- One loop, from any stage that the others before it have left.
    loop_from :
        (ignored : Bool) (kind : JobKind) (others : List UnitId) (s : Stage)
        → missing us s < fuel
        → AllAsked db Q (asks others kind)
        → GrowsFrom db mode us Q (expand_loop rec ignored kind others) s (asks others kind)
    loop_from ignored kind others s m q s1 g =
        loop-Grows rec fuel ignored kind others s1 calls g.good (still_less fuel s s1 m g) q

    start-Grows :
        (u : UnitId) (s : Stage)
        → IsGood us s
        → missing us s < fuel
        → AllAsked db Q (start_pulls db.deps u)
        → Grows db mode us Q (trans_expand_start rec db.deps u s) s (start_pulls db.deps u)
    unfolding trans_expand_start start_pulls
    start-Grows u s g m q =
        let (q1, r1) =
          AllAsked-split db Q (asks (gets_atom db.deps u unit_atom_pull_in_start) start) _ q in
        let (q2, r2) =
          AllAsked-split db Q (asks (gets_atom db.deps u unit_atom_pull_in_start_ignored) start) _
            r1 in
        let (q3, r3) =
          AllAsked-split db Q (asks (gets_atom db.deps u unit_atom_pull_in_verify) verify) _ r2 in
        let (q4, q5) =
          AllAsked-split db Q (asks (gets_atom db.deps u unit_atom_pull_in_stop) stop) _ r3 in
        then-Grows db mode us Q _ _ s _ _
          (loop_from false start _ s m q1 s (IsGrown-refl db mode us Q s g))
          λ s1 g1.
            let m1 = still_less fuel s s1 m g1 in
            then-Grows db mode us Q _ _ s1 _ _
              (loop_from true start _ s1 m1 q2 s1 (IsGrown-refl db mode us Q s1 g1.good))
              λ s2 g2.
                let m2 = still_less fuel s1 s2 m1 g2 in
                then-Grows db mode us Q _ _ s2 _ _
                  (loop_from false verify _ s2 m2 q3 s2 (IsGrown-refl db mode us Q s2 g2.good))
                  λ s3 g3.
                    let m3 = still_less fuel s2 s3 m2 g3 in
                    then-Grows db mode us Q _ _ s3 _ _
                      (loop_from false stop _ s3 m3 q4 s3 (IsGrown-refl db mode us Q s3 g3.good))
                      (loop_from true stop _ s3 m3 q5)

    kind-Grows :
        (u : UnitId) (kind : JobKind) (s : Stage)
        → job_is_basic_op kind ≡ true
        → IsGood us s
        → missing us s < fuel
        → AllAsked db Q (kind_pulls db.deps u kind)
        → Grows db mode us Q (expand_kind rec db.deps u kind s) s (kind_pulls db.deps u kind)
    unfolding expand_kind trans_expand_stop trans_expand_reload job_is_basic_op
    kind-Grows u start s b g m q = start-Grows u s g m q
    kind-Grows u stop s b g m q = loop-Grows rec fuel false stop _ s calls g m q
    kind-Grows u reload s b g m q = loop-Grows rec fuel true try_reload _ s calls g m q
    kind-Grows u restart s b g m q =
        let (q1, q2) = AllAsked-split db Q (start_pulls db.deps u) _ q in
        then-Grows db mode us Q _ _ s _ _ (start-Grows u s g m q1)
          (loop_from false try_restart _ s m q2)
    kind-Grows u verify s b g m q = (ok, s, refl, IsGrown-refl db mode us Q s g, λ p. (refl, tt))
    kind-Grows u nop s b g m q = (ok, s, refl, IsGrown-refl db mode us Q s g, λ p. (refl, tt))
    kind-Grows u try_reload s b g m q = cc
    kind-Grows u try_restart s b g m q = cc
    kind-Grows u reload_or_start s b g m q = cc

    -- What follows the recording of a new job.
    pub part-Grows :
        (u : UnitId) (kind : JobKind) (s : Stage)
        → job_is_basic_op kind ≡ true
        → IsGood us s
        → missing us s < fuel
        → AllAsked db Q (pulls db.deps mode u kind)
        → Grows db mode us Q
            (if trans_is_expand kind true mode
              then expand_kind rec db.deps u kind s
              else some (ok, s))
            s
            (pulls db.deps mode u kind)
    unfolding trans_is_expand pulls
    part-Grows u kind s b g m q = elim (Bool-cases (kind == nop)) [
      | inl e ↦
          let nothing : pulls db.deps mode u kind ≡ [] =
            subst (λ k. pulls db.deps mode u k ≡ []) (sym ((kind_eq.beq_iff kind nop).0 e))
              (pulls-nop db.deps mode u) in
          rw e (
            ok,
            s,
            refl,
            IsGrown-refl db mode us Q s g,
            λ p. (refl, subst (AllStaged db s) (sym nothing) tt),
          )
      | inr e ↦ elim (Bool-cases (mode == ignore_dependencies || mode == ignore_requirements)) [
        | inl i ↦ rw e (rw i (ok, s, refl, IsGrown-refl db mode us Q s g, λ p. (refl, tt)))
        | inr i ↦ rw e (
            rw i (
              kind-Grows u kind s b g m
                (subst (AllAsked db Q) (pulls-free db.deps mode u kind i) q)))
      ]
    ]
