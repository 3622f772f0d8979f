-- ===== src/Job/Table/Touched.antt =====
-- core/bin/job/junit.rs: which operations of a unit leave it dirty, and none touches its `up_ready`.
use sysmaster.Base.{
  ℕ, Bool, true, false, not, ◌≡◌, List, [], Option, some, arith, if◌then◌else◌, assert, bind-some,
  is_none, is_some, get, insert, remove, values, ◌∙◌,
}
use sysmaster.Job.Kind.{JobKind, JobResult, kind_eq, cancelled, job_is_basic_op}
use sysmaster.Job.Heap.{Heap, wait_ref, finish_all}
use sysmaster.Job.Junit.{JobUnit, update_ready, is_trigger, is_nil, calc_ready}
use sysmaster.Job.Junit.Suspends.{
  insert_suspend, touched, finish_removed, remove_suspend, flush_suspends,
}
use sysmaster.Job.Junit.Trigger.{pause_unit, resume_unit, retrigger_trigger, insert_trigger}

-- The two marks of a unit after an operation.
pub record IsMarked (d : JobUnit) (dirty : Bool) (d' : JobUnit) : Type 0 where
  pub up : d'.up_ready ≡ d.up_ready
  pub dirt : d'.dirty ≡ dirty

pub update_ready-IsMarked : (d d' : JobUnit) → update_ready d ≡ some d' → IsMarked d d.dirty d'
unfolding update_ready
update_ready-IsMarked d d' e =
    let (s, a, f) = bind-some (calc_ready d) _ d' e in
    record { up = ground (arith, f); dirt = ground (arith, f) }

touched-IsMarked : (d d' : JobUnit) → touched d ≡ some d' → IsMarked d true d'
touched-IsMarked d d' e =
    let m = update_ready-IsMarked (record d { order = false; dirty = true }) d' e in
    record { up = m.up; dirt = m.dirt }

pub insert_suspend-IsMarked :
    (d d' : JobUnit) (r : ℕ) (b : Bool) (h h' : Heap)
    → insert_suspend d r b h ≡ some (d', h')
    → IsMarked d true d'
unfolding insert_suspend
insert_suspend-IsMarked d d' r b h h' e =
    let kind = (h.job r).kind in
    let (x, a, e1) = bind-some (assert (job_is_basic_op kind)) _ _ e in
    let (y, a1, e2) = bind-some (assert (not (is_trigger d r))) _ _ e1 in
    let (z, a2, e3) = bind-some (assert (is_none (get d.suspends kind))) _ _ e2 in
    let (d1, a3, e4) =
      bind-some (touched (record d { suspends = insert d.suspends kind r })) _ _ e3 in
    let (h1, a4, e5) = bind-some (if b then wait_ref h r else some h) _ _ e4 in
    let m = touched-IsMarked (record d { suspends = insert d.suspends kind r }) d1 a3 in
    record { up = ground (arith, e5, m.up); dirt = ground (arith, e5, m.dirt) }

pub remove_suspend-IsMarked :
    (d d' : JobUnit) (k : JobKind) (res : JobResult) (h h' : Heap) (o : Option ℕ)
    → remove_suspend d k res h ≡ some (o, d', h')
    → IsMarked d true d'
unfolding remove_suspend
remove_suspend-IsMarked d d' k res h h' o e =
    let (d1, a, e1) = bind-some (touched (record d { suspends = remove d.suspends k })) _ _ e in
    let (h1, a1, e2) = bind-some (finish_removed (get d.suspends k) res h) _ _ e1 in
    let m = touched-IsMarked (record d { suspends = remove d.suspends k }) d1 a in
    record { up = ground (arith, e2, m.up); dirt = ground (arith, e2, m.dirt) }

pub flush_suspends-IsMarked :
    (d d' : JobUnit) (h h' : Heap) (l : List ℕ)
    → flush_suspends d h ≡ some (l, d', h')
    → IsMarked d true d'
unfolding flush_suspends
flush_suspends-IsMarked d d' h h' l e =
    let (d1, a, e1) = bind-some (touched (record d { suspends = [] })) _ _ e in
    let (h1, a1, e2) = bind-some (finish_all (values d.suspends) cancelled h) _ _ e1 in
    let m = touched-IsMarked (record d { suspends = [] }) d1 a in
    record { up = ground (arith, e2, m.up); dirt = ground (arith, e2, m.dirt) }

pub resume_unit-IsMarked : (d d' : JobUnit) → resume_unit d ≡ some d' → IsMarked d true d'
unfolding resume_unit
resume_unit-IsMarked d d' e =
    let (x, a, e1) = bind-some (assert d.order) _ _ e in
    let m = update_ready-IsMarked (record d { dirty = true; pause = false }) d' e1 in
    record { up = m.up; dirt = m.dirt }

pub pause_unit-IsMarked : (d d' : JobUnit) → pause_unit d ≡ some d' → IsMarked d true d'
unfolding pause_unit
pause_unit-IsMarked d d' e =
    let (x, a, e1) = bind-some (assert d.order) _ _ e in
    let m = update_ready-IsMarked (record d { dirty = true; pause = true }) d' e1 in
    record { up = m.up; dirt = m.dirt }

pub retrigger-IsMarked : (d d' : JobUnit) → retrigger_trigger d ≡ some d' → IsMarked d true d'
unfolding retrigger_trigger
retrigger-IsMarked d d' e =
    let (x, a, e1) = bind-some (assert (is_some d.trigger)) _ _ e in
    let (y, a1, e2) = bind-some (assert d.order) _ _ e1 in
    let m = update_ready-IsMarked (record d { retrigger = true; dirty = true }) d' e2 in
    record { up = m.up; dirt = m.dirt }

pub insert_trigger-IsMarked :
    (d d' : JobUnit) (r : ℕ) (h : Heap) → insert_trigger d r h ≡ some d' → IsMarked d true d'
unfolding insert_trigger
insert_trigger-IsMarked d d' r h e =
    let (x, a, e1) = bind-some (assert (is_none d.trigger)) _ _ e in
    let (y, a1, e2) = bind-some (assert (is_nil d.suspends)) _ _ e1 in
    let (z, a2, e3) = bind-some (assert (job_is_basic_op (h.job r).kind)) _ _ e2 in
    let (w, a3, e4) = bind-some (assert d.order) _ _ e3 in
    let (d1, a4, e5) = bind-some (retrigger_trigger (record d { trigger = some r })) _ _ e4 in
    let m = retrigger-IsMarked (record d { trigger = some r }) d1 a4 in
    let n = update_ready-IsMarked (record d1 { dirty = true }) d' e5 in
    record { up = n.up ∙ m.up; dirt = n.dirt }
