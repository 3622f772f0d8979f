-- ===== src/Job/Table/Triggering.antt =====
-- core/bin/job/junit.rs: what merging, triggering and finishing leave of a unit's two marks.
use sysmaster.Base.{
  ℕ, Bool, true, false, not, ◌≡◌, ◌⊎◌, List, [], ◌∷◌, Option, none, some, arith, inl, inr,
  if◌then◌else◌, assert, bind-some, get, remove, values, ◌∙◌, subst,
}
use sysmaster.Job.Kind.{JobResult, kind_eq}
use sysmaster.Job.Entry.{Units, Job, TriggerResult, triggered, trigger_err}
use sysmaster.Job.Heap.{Heap, finish_ref, merge_ref, run_ref}
use sysmaster.Job.Junit.{JobUnit, update_ready, is_suspends_conflict_with, calc_ready}
use sysmaster.Job.Junit.Suspends.{
  insert_suspend, flush_suspends, Union, union_one, union_all, merge_suspends,
}
use sysmaster.Job.Junit.Trigger.{
  pause_unit, retrigger_trigger, finish_with, finish_trigger, do_next_trigger, next_trigger_with,
  do_next_trigger_suspend, do_next_trigger_retrigger, suspend_with, retrigger_with, finish_old,
  after_run, do_trigger,
}
use sysmaster.Job.Table.Touched.{
  IsMarked, update_ready-IsMarked, insert_suspend-IsMarked, flush_suspends-IsMarked,
  pause_unit-IsMarked, retrigger-IsMarked,
}

-- A unit into which jobs were merged: dirty, or as it was.
pub record IsMerged (d d' : JobUnit) : Type 0 where
  pub up : d'.up_ready ≡ d.up_ready
  pub dirt : (d'.dirty ≡ true) ⊎ (d' ≡ d)

IsMerged-marked : (d d' d'' : JobUnit) → IsMerged d d' → IsMarked d' true d'' → IsMerged d d''
IsMerged-marked d d' d'' k m = record { up = m.up ∙ k.up; dirt = inl m.dirt }

union_one-IsMerged :
    (d : JobUnit) (s s' : Union) (r : ℕ) (o : Option ℕ)
    → IsMerged d s.own
    → union_one s r o ≡ some s'
    → IsMerged d s'.own
unfolding union_one
union_one-IsMerged d s s' r (some job) k e =
    let (h, a, e1) = bind-some (merge_ref s.heap job r) _ _ e in
    subst (IsMerged d) (ground (arith, e1)) k
union_one-IsMerged d s s' r none k e =
    let ((d1, h1), a, e1) = bind-some (insert_suspend s.own r true s.heap) _ _ e in
    subst (IsMerged d) (ground (arith, e1))
      (IsMerged-marked d s.own d1 k (insert_suspend-IsMarked s.own d1 r true s.heap h1 a))

union_all-IsMerged :
    (d : JobUnit) (rs : List ℕ) (s s' : Union)
    → IsMerged d s.own
    → union_all rs s ≡ some s'
    → IsMerged d s'.own
unfolding union_all
union_all-IsMerged d [] s s' k e = subst (IsMerged d) (ground (arith, e)) k
union_all-IsMerged d (r ∷ rs) s s' k e =
    let o = get s.own.suspends (s.heap.job r).kind in
    let (s1, a, e1) = bind-some (union_one s r o) _ _ e in
    union_all-IsMerged d rs s1 s' (union_one-IsMerged d s s1 r o k a) e1

flushed-IsMerged :
    (d d' : JobUnit) (h h' : Heap) (l : List ℕ) (b : Bool)
    → (if b then flush_suspends d h else some ([], d, h)) ≡ some (l, d', h')
    → IsMerged d d'
flushed-IsMerged d d' h h' l true e =
    let m = flush_suspends-IsMarked d d' h h' l e in record { up = m.up; dirt = inl m.dirt }
flushed-IsMerged d d' h h' l false e = record {
  up = ground (arith, e);
  dirt = inr (ground (arith, e));
}

pub merge_suspends-IsMerged :
    (d o : JobUnit) (h : Heap) (l : List ℕ) (s : Union)
    → merge_suspends d o h ≡ some (l, s)
    → IsMerged d s.own
unfolding merge_suspends
merge_suspends-IsMerged d o h l s e =
    let ((l1, d1, h1), a, e1) =
      bind-some (if is_suspends_conflict_with d o then flush_suspends d h else some ([], d, h)) _ _
        e in
    let s0 : Union = record { own = d1; heap = h1; add_jobs = []; update_jobs = [] } in
    let (s1, a1, e2) = bind-some (union_all (values o.suspends) s0) _ _ e1 in
    subst (IsMerged d) (ground (arith, e2)) (
      union_all-IsMerged d (values o.suspends) s0 s1
        (flushed-IsMerged d d1 h h1 l1 (is_suspends_conflict_with d o) a) a1)

-- Whatever it does, an operation leaves `up_ready`.
retry-up :
    (d d' : JobUnit) (b : Bool)
    → (if b
        then retrigger_trigger d
        else some (record d { interrupt = false; retrigger = false; trigger = none }))
      ≡ some d'
    → d'.up_ready ≡ d.up_ready
retry-up d d' true e = (retrigger-IsMarked d d' e).up
retry-up d d' false e = ground (arith, e)

finish_with-up :
    (o r : Option ℕ) (d d' : JobUnit) (res : JobResult) (h h' : Heap)
    → finish_with o d res h ≡ some (r, d', h')
    → d'.up_ready ≡ d.up_ready
finish_with-up none r d d' res h h' e = cc
finish_with-up (some t) r d d' res h h' e =
    let (x, a, e1) = bind-some (assert d.order) _ _ e in
    let ((retry, h1), a1, e2) = bind-some (finish_ref h t res) _ _ e1 in
    let (d1, a2, e3) =
      bind-some
        (if retry
          then retrigger_trigger d
          else some (record d { interrupt = false; retrigger = false; trigger = none }))
        _ _ e2 in
    let (d2, a3, e4) = bind-some (update_ready (record d1 { dirty = true })) _ _ e3 in
    ground (
      arith,
      e4,
      (update_ready-IsMarked (record d1 { dirty = true }) d2 a3).up,
      retry-up d d1 retry a2,
    )

pub finish_trigger-up :
    (d d' : JobUnit) (res : JobResult) (h h' : Heap) (r : Option ℕ)
    → finish_trigger d res h ≡ some (r, d', h')
    → d'.up_ready ≡ d.up_ready
unfolding finish_trigger
finish_trigger-up d d' res h h' r e = finish_with-up d.trigger r d d' res h h' e

retrigger_with-up :
    (o m : Option ℕ) (d d' : JobUnit) (r : ℕ)
    → retrigger_with o d ≡ some (r, m, d')
    → d'.up_ready ≡ d.up_ready
retrigger_with-up none m d d' r e = cc
retrigger_with-up (some t) m d d' r e =
    let (x, a, e1) = bind-some (assert d.retrigger) _ _ e in
    let (y, a1, e2) = bind-some (assert d.order) _ _ e1 in
    let (z, a2, e3) = bind-some (assert (not d.interrupt)) _ _ e2 in
    let (d1, a3, e4) =
      bind-some (update_ready (record d { retrigger = false; dirty = true })) _ _ e3 in
    ground
      (arith, e4, (update_ready-IsMarked (record d { retrigger = false; dirty = true }) d1 a3).up)

suspend_with-up :
    (sq : List ℕ) (m : Option ℕ) (d d' : JobUnit) (r : ℕ) (h : Heap)
    → suspend_with sq d h ≡ some (r, m, d')
    → d'.up_ready ≡ d.up_ready
suspend_with-up [] m d d' r h e = cc
suspend_with-up (s ∷ sq) m d d' r h e =
    let (x, a, e1) = bind-some (assert d.order) _ _ e in
    let d1 : JobUnit =
      if d.interrupt
      then record d { interrupt = false; retrigger = false; trigger = none }
      else d in
    let d2 : JobUnit = record d1 {
      trigger = some s;
      sq = sq;
      suspends = remove d1.suspends (h.job s).kind;
      dirty = true;
    } in
    let (d3, a1, e2) = bind-some (update_ready d2) _ _ e1 in
    ground (arith, e2, (update_ready-IsMarked d2 d3 a1).up)

next_trigger_with-up :
    (c : Option Bool) (m : Option ℕ) (d d' : JobUnit) (r : ℕ) (h : Heap)
    → next_trigger_with c d h ≡ some (r, m, d')
    → d'.up_ready ≡ d.up_ready
unfolding do_next_trigger_suspend do_next_trigger_retrigger
next_trigger_with-up none m d d' r h e = cc
next_trigger_with-up (some true) m d d' r h e = suspend_with-up d.sq m d d' r h e
next_trigger_with-up (some false) m d d' r h e = retrigger_with-up d.trigger m d d' r e

after_run-up :
    (t : TriggerResult) (o : Option JobResult) (d d' : JobUnit)
    → after_run t d ≡ some (o, d')
    → d'.up_ready ≡ d.up_ready
after_run-up triggered o d d' e = ground (arith, e)
after_run-up (trigger_err none) o d d' e =
    let (d1, a, e1) = bind-some (pause_unit d) _ _ e in
    let (d2, a1, e2) = bind-some (retrigger_trigger d1) _ _ e1 in
    ground (arith, e2, (pause_unit-IsMarked d d1 a).up, (retrigger-IsMarked d1 d2 a1).up)
after_run-up (trigger_err (some r)) o d d' e = ground (arith, e)

pub do_trigger-up :
    (us : Units) (d d' : JobUnit) (h h' : Heap) (j : Job) (o : Option JobResult) (m : Option ℕ)
    → do_trigger us d h ≡ some (j, o, m, d', h')
    → d'.up_ready ≡ d.up_ready
unfolding do_trigger do_next_trigger
do_trigger-up us d d' h h' j o m e =
    let ((cur, old, d1), a, e1) = bind-some (do_next_trigger d h) _ _ e in
    let (h1, a1, e2) = bind-some (finish_old old cur h) _ _ e1 in
    let ((t, h2), a2, e3) = bind-some (run_ref us h1 cur) _ _ e2 in
    let ((r, d2), a3, e4) = bind-some (after_run t d1) _ _ e3 in
    let (c, a4, e5) = bind-some (calc_ready d) _ _ a in
    ground (arith, e4, after_run-up t r d1 d2 a3, next_trigger_with-up c old d d1 cur h e5)
