-- ===== src/Job/Tests.antt =====
-- core/bin/job: the theorems at concrete units and jobs.
use sysmaster.Base.{
  ℕ, Bool, true, false, ◌≡◌, ◌≢◌, refl, Option, none, some, List, [], ◌∷◌, HashMap, get, values,
  nat_eq, if◌then◌else◌, string_eq,
}
use sysmaster.Job.Kind.{JobKind, start, kind_eq, done, merged, cancelled, wait, running, end}
use sysmaster.Job.Rentry.{JobRe}
use sysmaster.Job.Entry.{Job, run_job, finish_job}
use sysmaster.Job.Lifecycle.{run_job_total, finish_job_twice}
use sysmaster.Job.Lifecycle.Ended.{IsFinished, finish_job_lem}
use sysmaster.Job.Heap.{Heap}
use sysmaster.Job.Heap.Finish.{IsEnded}
use sysmaster.Job.Junit.{JobUnit, calc_ready, is_suspends_conflict, is_suspends_conflict_with}
use sysmaster.Job.Junit.Suspends.{Union, merge_suspends, flush_suspends}
use sysmaster.Job.Junit.Committed.{IsCommitted, merge_suspends_lem, merge_suspends-no_conflict}
use sysmaster.Job.Junit.Settled.{settled, absorbed, is_absorbed}
use sysmaster.Job.Junit.Reshuffle.{reshuffle}
use sysmaster.Job.Junit.Reshuffled.{reshuffle_lem}
use sysmaster.Job.Junit.Flush.{flushed, flush_suspends_lem, flush_interrupted_panics}
use sysmaster.Job.Junit.Trigger.{do_next_trigger, finish_trigger}
use sysmaster.Job.Junit.Triggered.{IsTriggered, do_next_trigger_lem}
use sysmaster.Job.Junit.Finished.{is_half, finished_unit, finished_heap, finish_trigger_lem}
use sysmaster.Job.Samples.{
  willing, restart_job, waiting_re, running_re, waiting_reached, running_reached, busy_heap,
  busy_unit, offered_unit, busy-IsKept, busy-HasRunning, offered-AreOffered, offered-IsUnique,
}

merge_suspends_example :
    (s : Union) × (merge_suspends busy_unit offered_unit busy_heap
      ≡ some (
        (if is_suspends_conflict_with busy_unit offered_unit
            then values busy_unit.suspends
            else []),
        s,
      ))
    × IsCommitted busy_unit offered_unit s
merge_suspends_example =
    merge_suspends_lem busy_unit offered_unit busy_heap busy-IsKept busy-HasRunning offered-IsUnique
      offered-AreOffered

merge_calm_example :
    (del : List ℕ) × (s : Union) × (merge_suspends busy_unit offered_unit busy_heap ≡ some (del, s))
    × (is_suspends_conflict s.own ≡ false)
unfolding is_suspends_conflict
merge_calm_example =
    merge_suspends-no_conflict busy_unit offered_unit busy_heap busy-IsKept busy-HasRunning
      offered-IsUnique offered-AreOffered refl

reshuffle_example :
    (m : HashMap JobKind ℕ) × (h' : Heap) × (reshuffle willing busy_unit busy_heap
      ≡ some (absorbed willing busy_unit, settled busy_unit m, h'))
    × ((k : JobKind)
        → get m k ≡ (if is_absorbed willing busy_unit k then none else get busy_unit.suspends k))
    × IsEnded busy_heap (absorbed willing busy_unit) merged h'
unfolding is_suspends_conflict
reshuffle_example = reshuffle_lem willing busy_unit busy_heap busy-IsKept refl refl (λ i. cc)

abbrev interrupted_unit : JobUnit
interrupted_unit = record busy_unit { order = true; sq = 2 ∷ []; interrupt = true; ready = true }

flush_suspends_example :
    (h' : Heap) × (flush_suspends busy_unit busy_heap
      ≡ some (values busy_unit.suspends, flushed busy_unit, h'))
    × IsEnded busy_heap (values busy_unit.suspends) cancelled h'
flush_suspends_example = flush_suspends_lem busy_unit busy_heap busy-IsKept

flush_interrupted_example :
    (h' : Heap) × (flush_suspends interrupted_unit busy_heap
      ≡ some (values interrupted_unit.suspends, flushed interrupted_unit, h'))
    × (reshuffle willing (flushed interrupted_unit) h' ≡ none)
flush_interrupted_example =
    flush_interrupted_panics willing interrupted_unit busy_heap 1
      (record { unique = busy-IsKept.unique; filed = busy-IsKept.filed }) refl refl refl

do_next_trigger_example :
    (r : ℕ) × (m : Option ℕ) × (d' : JobUnit) × (do_next_trigger interrupted_unit busy_heap
      ≡ some (r, m, d'))
    × IsTriggered interrupted_unit busy_heap r m d'
unfolding calc_ready
do_next_trigger_example = do_next_trigger_lem interrupted_unit busy_heap true refl

finish_trigger_example :
    let half = is_half (busy_heap.job 1) done in
    finish_trigger interrupted_unit done busy_heap
    ≡ some (
      (if half then none else some 1),
      finished_unit interrupted_unit half,
      finished_heap busy_heap 1 done,
    )
finish_trigger_example =
    finish_trigger_lem interrupted_unit busy_heap 1 done refl refl (λ i. refl) running_reached refl

run_job_example : run_job willing (restart_job wait) waiting_re ≢ none
run_job_example = run_job_total willing waiting_reached refl

finish_job_example :
    (retry : Bool) × (j' : Job) × (re' : JobRe) × (finish_job (restart_job running) done running_re
      ≡ some (retry, j', re'))
    × IsFinished (restart_job running) done running_re retry j' re'
finish_job_example = finish_job_lem done running_reached refl

finish_job_twice_example :
    (false ≡ false)
    × ((record (restart_job running) { run_kind = start; stage = end done }).stage ≡ end done)
unfolding finish_job
finish_job_twice_example =
    finish_job_twice {retry = true} {retry' = false} running_reached refl refl
