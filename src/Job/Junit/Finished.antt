-- ===== src/Job/Junit/Finished.antt =====
-- core/bin/job/junit.rs: what `finish_trigger` leaves of the job that ran.
use sysmaster.Base.{ℕ, Bool, true, false, not, ◌&&◌, ◌≡◌, none, some, arith, if◌then◌else◌, ◌==◌}
use sysmaster.Job.Kind.{kind_eq, JobResult, done, restart, start, stop, running, end}
use sysmaster.Job.Rentry.{trigger_remove}
use sysmaster.Job.Entry.{Job}
use sysmaster.Job.Lifecycle.{JobReach, finish_job_steps}
use sysmaster.Job.Heap.{Heap, write, finish_ref}
use sysmaster.Job.Junit.{JobUnit, update_ready, is_nil}
use sysmaster.Job.Junit.Trigger.{finish_trigger, retrigger_trigger}

-- Is this the end of the first half of a restart?
abbrev pub is_half : Job → JobResult → Bool
is_half j done = j.kind == restart && j.run_kind == stop
is_half j _ = false

-- The heap after the job ended or, at half a restart, went on to its start.
abbrev pub finished_heap : Heap → ℕ → JobResult → Heap
finished_heap h t result =
    if is_half (h.job t) result
    then write h t (record (h.job t) { run_kind = start; stage = running }) h.rentry
    else write h t (record (h.job t) { stage = end result })
        (trigger_remove h.rentry (h.job t).unit)

-- And the unit.
abbrev pub finished_unit : JobUnit → Bool → JobUnit
finished_unit d true = record d { retrigger = true; dirty = true; ready = not d.pause }
finished_unit d false = record d {
  interrupt = false;
  retrigger = false;
  trigger = none;
  dirty = true;
  ready = not d.pause && not (is_nil d.sq);
}

finish_ref_running :
    (h : Heap) (t : ℕ) (result : JobResult)
    → JobReach (h.job t) h.rentry
    → (h.job t).stage ≡ running
    → finish_ref h t result ≡ some (is_half (h.job t) result, finished_heap h t result)
unfolding finish_ref
finish_ref_running h t result reach run =
    let f = finish_job_steps result reach (ground (arith)) in
    ground
      (arith, f, kind_eq.beq_iff (h.job t).kind restart, kind_eq.beq_iff (h.job t).run_kind stop)

finish_trigger_steps :
    (d : JobUnit) (h : Heap) (t : ℕ) (result : JobResult) {b : Bool} {h' : Heap}
    → d.trigger ≡ some t
    → d.order ≡ true
    → (d.interrupt ≡ true → is_nil d.sq ≡ false)
    → finish_ref h t result ≡ some (b, h')
    → finish_trigger d result h ≡ some ((if b then none else some t), finished_unit d b, h')
unfolding finish_trigger retrigger_trigger update_ready
finish_trigger_steps d h t result e o i f = ground arith

-- A reached job that runs as the trigger of a unit in order, where an interrupt was marked only while
-- something waits, is finished without a panic. At half a restart it stays the trigger with start
-- next, to be run again unless the unit is paused. Otherwise it ends with the result, its entry
-- leaves the database, and the unit has no trigger, no mark of it, and is ready exactly if it is not
-- paused and something is in order.
pub finish_trigger_lem :
    (d : JobUnit) (h : Heap) (t : ℕ) (result : JobResult)
    → d.trigger ≡ some t
    → d.order ≡ true
    → (d.interrupt ≡ true → is_nil d.sq ≡ false)
    → JobReach (h.job t) h.rentry
    → (h.job t).stage ≡ running
    → let half = is_half (h.job t) result in
      finish_trigger d result h
      ≡ some ((if half then none else some t), finished_unit d half, finished_heap h t result)
finish_trigger_lem d h t result e o i reach run =
    finish_trigger_steps d h t result e o i (finish_ref_running h t result reach run)
