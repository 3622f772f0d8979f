-- ===== src/Job/Junit/Trigger.antt =====
-- core/bin/job/junit.rs: pausing, triggering, re-triggering and finishing the job that runs.
use sysmaster.Base.{
  ℕ, Bool, true, false, not, ◌&&◌, List, [], ◌∷◌, Option, none, some, remove, values, ◌==◌, assert,
  ◌>>=◌, ◌>>◌, is_some, is_none, if◌then◌else◌, is_positive,
}
use sysmaster.Unit.Relation.AtomNames.{UnitRelationAtom}
use sysmaster.Job.Kind.{nop, kind_eq, JobResult, merged, job_is_basic_op}
use sysmaster.Job.Entry.{Units, Job, TriggerResult, triggered, trigger_err}
use sysmaster.Job.Process.{is_order_with}
use sysmaster.Job.Heap.{Heap, merge_ref, run_ref, finish_ref}
use sysmaster.Job.Junit.{JobUnit, update_ready, calc_ready, is_nil}

-- `JobUnitData::pause`
unfoldable pub pause_unit : JobUnit → Option JobUnit
unfolding update_ready
pause_unit d = do assert d.order; update_ready (record d { dirty = true; pause = true })

-- `JobUnitData::resume`
unfoldable pub resume_unit : JobUnit → Option JobUnit
unfolding update_ready
resume_unit d = do assert d.order; update_ready (record d { dirty = true; pause = false })

unfoldable pub retrigger_trigger : JobUnit → Option JobUnit
unfolding update_ready
retrigger_trigger d = do
  assert (is_some d.trigger)
  assert d.order
  update_ready (record d { retrigger = true; dirty = true })

unfoldable pub insert_trigger : JobUnit → ℕ → Heap → Option JobUnit
unfolding retrigger_trigger update_ready job_is_basic_op
insert_trigger d r h = do
  assert (is_none d.trigger)
  assert (is_nil d.suspends)
  assert (job_is_basic_op (h.job r).kind)
  assert d.order
  d' ← retrigger_trigger (record d { trigger = some r })
  update_ready (record d' { dirty = true })

-- The trigger that `finish_trigger` finds, or a panic.
abbrev pub finish_with : Option ℕ → JobUnit → JobResult → Heap → Option (Option ℕ × JobUnit × Heap)
finish_with none d result h = none
finish_with (some t) d result h = do
  assert d.order
  (retry, h') ← finish_ref h t result
  d' ←
      if retry
      then retrigger_trigger d
      else some (record d { interrupt = false; retrigger = false; trigger = none })
  d'' ← update_ready (record d' { dirty = true })
  some (if retry then none else some t, d'', h')

unfoldable pub finish_trigger : JobUnit → JobResult → Heap → Option (Option ℕ × JobUnit × Heap)
unfolding finish_ref retrigger_trigger update_ready
finish_trigger d result h = finish_with d.trigger d result h

abbrev pub retrigger_with : Option ℕ → JobUnit → Option (ℕ × Option ℕ × JobUnit)
retrigger_with none d = none
retrigger_with (some t) d = do
  assert d.retrigger
  assert d.order
  assert (not d.interrupt)
  d' ← update_ready (record d { retrigger = false; dirty = true })
  some (t, none, d')

unfoldable pub do_next_trigger_retrigger : JobUnit → Option (ℕ × Option ℕ × JobUnit)
unfolding update_ready
do_next_trigger_retrigger d = retrigger_with d.trigger d

abbrev pub suspend_with : List ℕ → JobUnit → Heap → Option (ℕ × Option ℕ × JobUnit)
suspend_with [] d h = none
suspend_with (r ∷ rs) d h = do
  assert d.order
  let merge_trigger = if d.interrupt then d.trigger else none
  let d1 =
      if d.interrupt then record d { interrupt = false; retrigger = false; trigger = none } else d
  let d2 = record d1 {
    trigger = some r;
    sq = rs;
    suspends = remove d1.suspends (h.job r).kind;
    dirty = true;
  }
  d3 ← update_ready d2
  some (r, merge_trigger, d3)

unfoldable pub do_next_trigger_suspend : JobUnit → Heap → Option (ℕ × Option ℕ × JobUnit)
unfolding update_ready
do_next_trigger_suspend d h = suspend_with d.sq d h

abbrev pub next_trigger_with : Option Bool → JobUnit → Heap → Option (ℕ × Option ℕ × JobUnit)
next_trigger_with (some true) d h = do_next_trigger_suspend d h
next_trigger_with (some false) d h = do_next_trigger_retrigger d
next_trigger_with none d h = none

unfoldable pub do_next_trigger : JobUnit → Heap → Option (ℕ × Option ℕ × JobUnit)
unfolding calc_ready do_next_trigger_suspend do_next_trigger_retrigger
do_next_trigger d h = do s ← calc_ready d; next_trigger_with s d h

-- `job.finish(Merged)` for the interrupted job, after its attribute was merged into one of its kind.
abbrev pub finish_old : Option ℕ → ℕ → Heap → Option Heap
finish_old none cur h = some h
finish_old (some job) cur h = do
  h' ← if (h.job job).kind == (h.job cur).kind then merge_ref h cur job else some h
  (retry, h'') ← finish_ref h' job merged
  some h''

-- What `run` answered: to be triggered again, to be ended, or neither.
abbrev pub after_run : TriggerResult → JobUnit → Option (Option JobResult × JobUnit)
after_run triggered d = some (none, d)
after_run (trigger_err none) d = do d' ← pause_unit d; d'' ← retrigger_trigger d'; some (none, d'')
after_run (trigger_err (some r)) d = some (some r, d)

-- The results are the job as it was before it ran (`JobInfo`), the result that ends it, the job that
-- it interrupted, and the new state.
unfoldable pub do_trigger :
    Units → JobUnit → Heap → Option (Job × Option JobResult × Option ℕ × JobUnit × Heap)
unfolding do_next_trigger merge_ref finish_ref run_ref pause_unit retrigger_trigger
do_trigger u d h = do
  (cur, merge_trigger, d1) ← do_next_trigger d h
  let t_jinfo = h.job cur
  h1 ← finish_old merge_trigger cur h
  (t, h2) ← run_ref u h1 cur
  (tend_result, d2) ← after_run t d1
  some (t_jinfo, tend_result, merge_trigger, d2, h2)

-- The job that `get_next_trigger` returns.
abbrev peek_with : Option Bool → JobUnit → Option ℕ
peek_with (some true) d = elim d.sq [ [] ↦ none | r ∷ rs ↦ some r ]
peek_with (some false) d = if d.retrigger then d.trigger else none
peek_with none d = none

unfoldable pub get_next_trigger : JobUnit → Option ℕ
unfolding calc_ready
get_next_trigger d = do s ← calc_ready d; peek_with s d

-- Does none of these jobs go before `job`?
unfoldable pub none_before : Job → List ℕ → UnitRelationAtom → Heap → Option Bool
unfolding is_order_with
none_before job [] atom h = some true
none_before job (r ∷ rs) atom h = do
  c ← is_order_with job (h.job r) atom
  rest ← none_before job rs atom h
  some (not (is_positive c) && rest)

abbrev pub opt_to_list : Option ℕ → List ℕ
opt_to_list none = []
opt_to_list (some r) = r ∷ []

-- The two loops of `is_next_trigger_order_with`.
abbrev pub compare_order : Job → JobUnit → UnitRelationAtom → Heap → Option Bool
compare_order job o atom h = do
  suspended ← none_before job (values o.suspends) atom h
  running ← none_before job (opt_to_list o.trigger) atom h
  some (suspended && running)

unfoldable pub is_next_trigger_order_with :
    JobUnit → JobUnit → UnitRelationAtom → Heap → Option Bool
unfolding get_next_trigger none_before
is_next_trigger_order_with d o atom h = do
  assert (d.ready && o.order)
  r ← get_next_trigger d
  let job = h.job r
  if job.attr.ignore_order
      then some true
      else if job.kind == nop
      then some true
      else compare_order job o atom h
