-- ===== src/Job/Junit/Committed.antt =====
-- core/bin/job/junit.rs: `JobUnitData::merge_suspends` as a whole, with the flush of a conflict.
use sysmaster.Base.{
  ℕ, true, false, ◌≡◌, ◌≢◌, ◌⊎◌, Option, none, some, List, [], arith, get, contains, contains_key,
  IsUnique, values, if◌then◌else◌, nat_eq, Bool-cases, Option-cases, inl, inr, ◌∙◌, ap, not_true,
  key_of_value,
}
use sysmaster.Job.Kind.{JobKind, kind_eq, wait, cancelled, stop}
use sysmaster.Job.Heap.{Heap}
use sysmaster.Job.Heap.Finish.{IsEnded}
use sysmaster.Job.Junit.{JobUnit, is_suspends_conflict, is_suspends_conflict_with}
use sysmaster.Job.Junit.Suspends.{Union, union_all, flush_suspends, merge_suspends}
use sysmaster.Job.Junit.Conflict.{Waits, is_suspends_conflict_lem, is_suspends_conflict_with_lem}
use sysmaster.Job.Junit.Kept.{IsKept}
use sysmaster.Job.Junit.Flush.{flushed, flush_suspends_lem}
use sysmaster.Job.Junit.Merge.{AreOffered, HasRunning}
use sysmaster.Job.Junit.Merged.{IsMerging, IsUnion, or_else, union_all_lem}

-- The jobs of the unit that stay when the jobs of `o` come.
abbrev pub staying : JobUnit → JobUnit → JobKind → Option ℕ
staying d o k = if is_suspends_conflict_with d o then none else get d.suspends k

-- What a commit leaves: under each kind the job that stayed or else the one that came.
pub record IsCommitted (d o : JobUnit) (s : Union) : Type 0 where
  pub suspends : (k : JobKind) → get s.own.suspends k ≡ or_else (staying d o k) (get o.suspends k)
  pub kept : IsKept s.own s.heap
  pub trigger : s.own.trigger ≡ d.trigger
  pub busy : HasRunning s.own s.heap

not_waiting :
    (d : JobUnit) (h : Heap) (r : ℕ)
    → IsKept d h
    → (h.job r).stage ≢ wait
    → contains (values d.suspends) r ≡ false
not_waiting d h r kept ne =
    not_true
      (λ c. let (j, e) = key_of_value d.suspends r kept.unique c in ne ((kept.filed j r e).waits))

unended :
    (d : JobUnit) (h h' : Heap) (r : ℕ)
    → IsKept d h
    → IsEnded h (values d.suspends) cancelled h'
    → (h.job r).stage ≢ wait
    → h'.job r ≡ h.job r
unended d h h' r kept ended ne = ground (arith, ended.jobs r, not_waiting d h r kept ne)

flushed-IsMerging :
    (d o : JobUnit) (h h' : Heap)
    → IsKept d h
    → HasRunning d h
    → IsUnique o.suspends
    → AreOffered h o.suspends
    → IsEnded h (values d.suspends) cancelled h'
    → IsMerging o.suspends (flushed d) h'
unfolding get
flushed-IsMerging d o h h' kept busy u off ended = record {
  unique = u;
  offered = λ k r e.
      let f = off k r e in
      let same = unended d h h' r kept ended (λ w. cc (w, f.fresh)) in
      record {
        kind = ap (λ x. x.kind) same ∙ f.kind;
        fresh = ap (λ x. x.stage) same ∙ f.fresh;
        basic = f.basic;
      };
  kept = record { unique = tt; filed = λ k r e. cc };
  busy = λ t e.
      let run = busy t e in
      ap (λ x. x.stage) (unended d h h' t kept ended (λ w. cc (w, run))) ∙ run;
}

start_union : JobUnit → Heap → Union
start_union d h = record { own = d; heap = h; add_jobs = []; update_jobs = [] }

merge_flushed :
    (d o : JobUnit) (h : Heap) {del : List ℕ} {d' : JobUnit} {h' : Heap} {s : Union}
    → is_suspends_conflict_with d o ≡ true
    → flush_suspends d h ≡ some (del, d', h')
    → union_all (values o.suspends) (start_union d' h') ≡ some s
    → merge_suspends d o h ≡ some (del, s)
unfolding merge_suspends start_union
merge_flushed d o h c e1 e2 = ground arith

merge_unflushed :
    (d o : JobUnit) (h : Heap) {s : Union}
    → is_suspends_conflict_with d o ≡ false
    → union_all (values o.suspends) (start_union d h) ≡ some s
    → merge_suspends d o h ≡ some ([], s)
unfolding merge_suspends start_union
merge_unflushed d o h c e = ground arith

flushed-IsCommitted :
    (d o : JobUnit) (h : Heap) (s : Union)
    → is_suspends_conflict_with d o ≡ true
    → IsUnion o.suspends (flushed d) h s.own s.heap
    → IsCommitted d o s
unfolding get
flushed-IsCommitted d o h s c n = record {
  suspends = λ k. ground (arith, n.suspends k);
  kept = n.kept;
  trigger = n.trigger;
  busy = n.busy;
}

unflushed-IsCommitted :
    (d o : JobUnit) (h : Heap) (s : Union)
    → is_suspends_conflict_with d o ≡ false
    → IsUnion o.suspends d h s.own s.heap
    → IsCommitted d o s
unflushed-IsCommitted d o h s c n = record {
  suspends = λ k. ground (arith, n.suspends k);
  kept = n.kept;
  trigger = n.trigger;
  busy = n.busy;
}

-- Committing the fresh jobs of a transaction to a unit whose jobs are kept and whose trigger, if any,
-- runs never panics. If the two conflict all jobs that wait at the unit are deleted, else none is.
-- Then under each kind waits the job that stayed or else the one that came, all are kept again, and
-- the trigger is as before.
pub merge_suspends_lem :
    (d o : JobUnit) (h : Heap)
    → IsKept d h
    → HasRunning d h
    → IsUnique o.suspends
    → AreOffered h o.suspends
    → (s : Union) × (merge_suspends d o h
        ≡ some ((if is_suspends_conflict_with d o then values d.suspends else []), s))
      × IsCommitted d o s
unfolding start_union
merge_suspends_lem d o h kept busy u off = elim (Bool-cases (is_suspends_conflict_with d o)) [
  | inl c ↦
      let (h', e, ended) = flush_suspends_lem d h kept in
      let (s, eq, n) =
        union_all_lem o.suspends (start_union (flushed d) h')
          (flushed-IsMerging d o h h' kept busy u off ended) in
      (s, rw c (merge_flushed d o h c e eq), flushed-IsCommitted d o h' s c n)
  | inr c ↦
      let (s, eq, n) =
        union_all_lem o.suspends (start_union d h)
          (record { unique = u; offered = off; kept = kept; busy = busy }) in
      (s, rw c (merge_unflushed d o h c eq), unflushed-IsCommitted d o h s c n)
]

Waits-committed :
    (d o : JobUnit) (s : Union) (k : JobKind)
    → IsCommitted d o s
    → Waits s.own k
    → (is_suspends_conflict_with d o ≡ false × Waits d k) ⊎ Waits o k
unfolding contains_key
Waits-committed d o s k n w = elim (Bool-cases (is_suspends_conflict_with d o)) [
  | inl c ↦ inr (ground (arith, n.suspends k))
  | inr c ↦ elim (Option-cases (get d.suspends k)) [
    | inl e ↦ inr (ground (arith, n.suspends k))
    | inr (r, e) ↦ inl (c, ground arith)
  ]
]

committed_calm :
    (d o : JobUnit) (s : Union)
    → IsUnique d.suspends
    → IsUnique o.suspends
    → is_suspends_conflict o ≡ false
    → IsCommitted d o s
    → is_suspends_conflict s.own ≢ true
committed_calm d o s u v c n b =
    let (w, (k, ne, ne', w')) = (is_suspends_conflict_lem s.own n.kept.unique).0 b in
    elim (Waits-committed d o s stop n w) [
      | inl (x, own) ↦ elim (Waits-committed d o s k n w') [
        | inl (y, own') ↦
            let t = (is_suspends_conflict_with_lem d o u v).1 (inl own, (k, ne, ne', inl own')) in
            cc
        | inr their' ↦
            let t = (is_suspends_conflict_with_lem d o u v).1 (inl own, (k, ne, ne', inr their')) in
            cc
      ]
      | inr their ↦ elim (Waits-committed d o s k n w') [
        | inl (y, own') ↦
            let t = (is_suspends_conflict_with_lem d o u v).1 (inr their, (k, ne, ne', inl own')) in
            cc
        | inr their' ↦ let t = (is_suspends_conflict_lem o v).1 (their, (k, ne, ne', their')) in cc
      ]
    ]

-- If the jobs of a transaction are fresh and not in conflict among themselves, and the unit's jobs
-- are kept and its trigger, if any, runs, then committing them to the unit does not panic and
-- leaves no conflict among the jobs that wait there.
pub merge_suspends-no_conflict :
    (d o : JobUnit) (h : Heap)
    → IsKept d h
    → HasRunning d h
    → IsUnique o.suspends
    → AreOffered h o.suspends
    → is_suspends_conflict o ≡ false
    → (del : List ℕ) × (s : Union) × (merge_suspends d o h ≡ some (del, s))
      × (is_suspends_conflict s.own ≡ false)
merge_suspends-no_conflict d o h kept busy u off c =
    let (s, e, n) = merge_suspends_lem d o h kept busy u off in
    (
      if is_suspends_conflict_with d o then values d.suspends else [],
      s,
      e,
      not_true (committed_calm d o s kept.unique u c n),
    )
