-- ===== src/Job/Table/Marked.antt =====
-- core/bin/job/junit.rs: no operation of a unit touches its `up_ready`, which belongs to the table.
use sysmaster.Base.{ℕ, ◌≡◌, List, [], some, arith, if◌then◌else◌, assert, not, bind-some}
use sysmaster.Job.Entry.{Units}
use sysmaster.Job.Heap.{Heap, finish_all}
use sysmaster.Job.Kind.{merged}
use sysmaster.Job.Junit.{JobUnit, update_ready, is_suspends_conflict}
use sysmaster.Job.Junit.Settled.{reorder_lem}
use sysmaster.Job.Junit.Reshuffle.{reshuffle, reorder, jobs_merge_trigger_prepare}

update_ready-up : (d d' : JobUnit) → update_ready d ≡ some d' → d'.up_ready ≡ d.up_ready
unfolding update_ready
update_ready-up d d' e = ground (arith, e)

reorder-up :
    (u : Units) (d d' : JobUnit) (l : List ℕ)
    → reorder u d ≡ some (d', l)
    → d'.up_ready ≡ d.up_ready
reorder-up u d d' l e = ground (arith, e, reorder_lem u d)

ordered-up :
    (u : Units) (d d' : JobUnit) (l : List ℕ)
    → (if d.order then some (d, []) else reorder u d) ≡ some (d', l)
    → d'.up_ready ≡ d.up_ready
ordered-up u d d' l e = ground (arith, e, reorder_lem u d)

prepare-up :
    (d d' : JobUnit) (h : Heap)
    → jobs_merge_trigger_prepare d h ≡ some d'
    → d'.up_ready ≡ d.up_ready
unfolding jobs_merge_trigger_prepare
prepare-up d d' h e = ground (arith, e)

pub reshuffle-up :
    (u : Units) (d d' : JobUnit) (h h' : Heap) (l : List ℕ)
    → reshuffle u d h ≡ some (l, d', h')
    → d'.up_ready ≡ d.up_ready
unfolding reshuffle
reshuffle-up u d d' h h' l e =
    let (x, a, e0) = bind-some (assert (not (is_suspends_conflict d))) _ _ e in
    let ((d1, jobs), a1, e1) =
      bind-some (if d.order then some (d, []) else reorder u d) _ (l, d', h') e0 in
    let (d2, a2, e2) = bind-some (jobs_merge_trigger_prepare d1 h) _ _ e1 in
    let (d3, a3, e3) = bind-some (update_ready d2) _ _ e2 in
    let (h3, a4, e4) = bind-some (finish_all jobs merged h) _ _ e3 in
    ground (arith, e4, ordered-up u d d1 jobs a1, prepare-up d1 d2 h a2, update_ready-up d2 d3 a3)
