-- ===== src/Job/Transaction/Checked.antt =====
-- core/bin/job/transaction.rs: the recording of a job, and `job_trans_expand` itself, end with a stage
-- that has grown.
use sysmaster.Base.{
  ℕ, suc, zero, ◌<◌, Bool, true, false, ◌&&◌, ◌≡◌, ◌⊎◌, refl, subst, List, [], ◌∷◌, some, ◌==◌,
  string_eq, arith, inl, inr, Bool-cases,
}
use sysmaster.Job.Kind.{
  JobKind, start, stop, reload, restart, verify, nop, try_reload, try_restart, reload_or_start,
  kind_eq, JobMode, mode_eq, job_is_basic_op,
}
use sysmaster.Job.Rentry.{UnitId}
use sysmaster.Job.Process.{job_merge_unit, merge_match}
use sysmaster.Job.Table.Jobs.{Stage}
use sysmaster.Job.Transaction.{
  TransDb, Answer, ok, err, Expansion, Expand, trans_expand_check_input, trans_is_expand,
  expand_checked, expand_answer, job_trans_expand,
}
use sysmaster.Job.Transaction.Recorded.{
  staged, IsRecorded, record_new_lem, record_suspend_new, record_suspend_old,
}
use sysmaster.Job.Transaction.Pulls.{Ask, pulls, mapped, AllAsked}
use sysmaster.Job.Transaction.Grown.{
  has, missing, recorded-missing, IsGood, AllPass, AllStaged, IsGrown, IsGrown-refl, Grows,
}
use sysmaster.Job.Transaction.Expanded.{Calls, part-Grows}

merge_match-basic : (kind : JobKind) (b : Bool) → job_is_basic_op (merge_match kind b) ≡ true
unfolding job_is_basic_op
merge_match-basic try_reload false = refl
merge_match-basic try_reload true = refl
merge_match-basic try_restart false = refl
merge_match-basic try_restart true = refl
merge_match-basic reload_or_start false = refl
merge_match-basic reload_or_start true = refl
merge_match-basic start b = refl
merge_match-basic stop b = refl
merge_match-basic reload b = refl
merge_match-basic restart b = refl
merge_match-basic verify b = refl
merge_match-basic nop b = refl

mapped-basic :
    (db : TransDb) (u : UnitId) (kind : JobKind) → job_is_basic_op (mapped db u kind) ≡ true
unfolding job_merge_unit
mapped-basic db u kind = merge_match-basic kind _

-- Is this the job that was recorded, or was it staged before?
recorded-cases :
    (s s1 : Stage) (u : UnitId) (kind : JobKind) (R : UnitId → JobKind → Type 0)
    → IsRecorded s u kind s1
    → R u kind
    → (v : UnitId) (j : JobKind) → staged s1 v j ≡ true
    → (staged s v j ≡ true) ⊎ R v j
recorded-cases s s1 u kind R r q v j e = elim (Bool-cases (u == v && kind == j)) [
  | inl same ↦ inr (
      subst (λ w. R w j) (ground (arith, same, string_eq.beq_iff u v))
        (subst (R u) (ground (arith, same, kind_eq.beq_iff kind j)) q))
  | inr other ↦ inl (ground (arith, r.stages v j, other, e))
]

module _ (db : TransDb) (mode : JobMode) (us : List Ask) (Q : UnitId → JobKind → Type 0) where
  module _ (rec : Expand) (fuel : ℕ) (calls : Calls db mode us Q rec fuel) where
    record-IsGrown :
        (u : UnitId) (kind : JobKind) (s s1 s2 : Stage)
        → IsRecorded s u kind s1
        → Q u kind
        → IsGrown db mode us Q s1 s2
        → (AllPass db Q → AllStaged db s2 (pulls db.deps mode u kind))
        → IsGrown db mode us Q s s2
    record-IsGrown u kind s s1 s2 r q g p = record {
      good = g.good;
      kept = λ v j e. g.kept v j (ground (arith, r.stages v j, e));
      only = λ v j e. elim (g.only v j e) [
        | inl e1 ↦ recorded-cases s s1 u kind Q r q v j e1
        | inr a ↦ inr a
      ];
      complete = λ c v j e. elim (g.complete c v j e) [
        | inl e1 ↦
            recorded-cases s s1 u kind (λ w i. AllStaged db s2 (pulls db.deps mode w i)) r (p c) v j
              e1
        | inr a ↦ inr a
      ];
    }

    recorded-IsGood :
        (u : UnitId) (kind : JobKind) (s s1 : Stage)
        → IsGood us s
        → IsRecorded s u kind s1
        → missing us s1 < missing us s
        → IsGood us s1
    recorded-IsGood u kind s s1 g r m = record {
      stage = r.stage;
      room = omega (arith, g.room, r.one_id, m);
    }

    -- The check has passed, and the kind was mapped.
    abbrev Stages : Expansion → Stage → UnitId → JobKind → Type 0
    Stages x s u kind =
        (a : Answer) × (s' : Stage) × (x ≡ some (a, s'))
        × IsGrown db mode us Q s s'
        × (AllPass db Q → (a ≡ ok) × (staged s' u kind ≡ true))

    checked_old :
        (u : UnitId) (kind : JobKind) (s : Stage)
        → IsGood us s
        → staged s u kind ≡ true
        → Stages (expand_checked rec db.deps mode s u kind) s u kind
    unfolding expand_checked trans_is_expand
    checked_old u kind s g e = (
      ok,
      s,
      rw (record_suspend_old s u kind mode e) (ground arith),
      IsGrown-refl db mode us Q s g,
      λ p. (refl, e),
    )

    checked_new :
        (u : UnitId) (kind : JobKind) (s : Stage)
        → job_is_basic_op kind ≡ true
        → IsGood us s
        → missing us s < suc fuel
        → has us u kind ≡ true
        → Q u kind
        → AllAsked db Q (pulls db.deps mode u kind)
        → staged s u kind ≡ false
        → Stages (expand_checked rec db.deps mode s u kind) s u kind
    unfolding expand_checked
    checked_new u kind s b g m h q qs e =
        let (s1, e1, r) = record_new_lem s u kind mode g.stage (omega (arith, g.room)) b e in
        let less = recorded-missing us s s1 u kind r h e in
        let (a, s2, e2, g2, p2) =
          part-Grows db mode us Q rec fuel calls u kind s1 b (recorded-IsGood u kind s s1 g r less)
            (omega (arith, less, m)) qs in
        (
          a,
          s2,
          rw (record_suspend_new s s1 u kind mode e e1) e2,
          record-IsGrown u kind s s1 s2 r q g2 (λ p. (p2 p).1),
          λ p. (
            (p2 p).0,
            g2.kept u kind
                (ground (arith, r.stages u kind, string_eq.beq_iff u u, kind_eq.beq_iff kind kind)),
          ),
        )

    checked_grows :
        (u : UnitId) (kind : JobKind) (s : Stage)
        → job_is_basic_op kind ≡ true
        → IsGood us s
        → missing us s < suc fuel
        → has us u kind ≡ true
        → Q u kind
        → AllAsked db Q (pulls db.deps mode u kind)
        → Stages (expand_checked rec db.deps mode s u kind) s u kind
    checked_grows u kind s b g m h q qs = elim (Bool-cases (staged s u kind)) [
      | inl e ↦ checked_old u kind s g e
      | inr e ↦ checked_new u kind s b g m h q qs e
    ]

  -- What the list and the predicate must be for a request: finite, and closed under what is pulled in.
  pub record IsClosed : Type 0 where
    pub listed : (v : UnitId) (j : JobKind) → Q v j → has us v j ≡ true
    pub closed : (v : UnitId) (j : JobKind) → Q v j → AllAsked db Q (pulls db.deps mode v j)

  answer-Grows :
      (rec : Expand) (fuel : ℕ) (s : Stage) (u : UnitId) (k : JobKind) (c : Answer)
      → Calls db mode us Q rec fuel
      → IsClosed
      → IsGood us s
      → missing us s < suc fuel
      → Q u (mapped db u k)
      → (AllPass db Q → c ≡ ok)
      → Grows db mode us Q (expand_answer rec db mode s u k c) s ((u, k) ∷ [])
  answer-Grows rec fuel s u k (err e) calls cl g m q p =
      (err e, s, refl, IsGrown-refl db mode us Q s g, λ a. cc (p a))
  answer-Grows rec fuel s u k ok calls cl g m q p =
      let (a, s2, e, g2, p2) =
        checked_grows rec fuel calls u (mapped db u k) s (mapped-basic db u k) g m
          (cl.listed u (mapped db u k) q) q (cl.closed u (mapped db u k) q) in
      (a, s2, e, g2, λ c. ((p2 c).0, ((p2 c).1, tt)))

  pub expand_grows : (fuel : ℕ) → IsClosed → Calls db mode us Q (job_trans_expand db mode fuel) fuel
  unfolding job_trans_expand
  expand_grows zero cl s u k g m q = absurd (omega (arith, m))
  expand_grows (suc fuel) cl s u k g m q =
      answer-Grows (job_trans_expand db mode fuel) fuel s u k (trans_expand_check_input db u k)
        (expand_grows fuel cl) cl g m q (λ p. p u k q)
