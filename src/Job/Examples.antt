-- ===== src/Job/Examples.antt =====
-- core/bin/job: the theorems on kinds, orders, ids, numbers and notifications, at concrete values.
use sysmaster.Base.{
  ℕ, ◌+◌, ◌≤◌, ◌<◌, true, false, not, ◌||◌, ◌≡◌, ◌≢◌, ◌⊎◌, ◌↔◌, refl, none, some, List, [], ◌∷◌,
  length, All, nat_eq, arith, inl, inr, ℤ, neg, is_positive, string_eq,
}
use sysmaster.Unit.State.{unit_active}
use sysmaster.Unit.Relation.AtomNames.{unit_atom_after, unit_atom_before}
use sysmaster.Job.Kind.{
  JobKind, start, stop, reload, nop, kind_eq, JobResult, done, failed, wait, end, job_is_basic_op,
  JobMode, try_reload,
}
use sysmaster.Job.Entry.{Job}
use sysmaster.Job.Process.{is_order_with, job_process_unit, job_merge_unit}
use sysmaster.Job.Ordered.{is_order_with_lem, is_target, job_process_unit_lem, job_merge_unit_lem}
use sysmaster.Job.Junit.{
  is_suspends_conflict, is_suspends_conflict_with, is_suspends_replace_with,
  is_suspends_irreversible,
}
use sysmaster.Job.Junit.Conflict.{
  Waits, is_suspends_conflict_lem, is_suspends_conflict_with_lem, is_suspends_replace_with_lem,
}
use sysmaster.Job.Samples.{
  willing, job_of, busy_heap, busy_unit, offered_unit, offered-IsUnique, busy-IsUnique,
}
use sysmaster.Job.Alloc.{JobAlloc, alloc_id}
use sysmaster.Job.Alloc.Fresh.{IsAllocated, alloc_id_lem}
use sysmaster.Job.Stat.{
  JobKindNum, new_kind_num, update_kind_num, JobResultCnt, new_result_cnt, update_result_cnt, usize,
}
use sysmaster.Job.Stat.Counted.{
  num_of, count_kind, update_kind_num_lem, cnt_of, count_ended, update_result_cnt_lem,
}
use sysmaster.Unit.Deps.{DepTable}
use sysmaster.Job.Notify.{JobConf, job_notify_event, job_notify_event_lem, IsAllowed}

is_suspends_conflict_example :
    (is_suspends_conflict busy_unit ≡ true)
    ↔ Waits busy_unit stop × ((k : JobKind) × (k ≢ stop) × (k ≢ nop) × Waits busy_unit k)
is_suspends_conflict_example = is_suspends_conflict_lem busy_unit busy-IsUnique

is_suspends_conflict_with_example :
    (is_suspends_conflict_with busy_unit offered_unit ≡ true)
    ↔ (Waits busy_unit stop ⊎ Waits offered_unit stop)
      × ((k : JobKind) × (k ≢ stop) × (k ≢ nop) × (Waits busy_unit k ⊎ Waits offered_unit k))
is_suspends_conflict_with_example =
    is_suspends_conflict_with_lem busy_unit offered_unit busy-IsUnique offered-IsUnique

is_suspends_replace_with_example :
    is_suspends_replace_with busy_unit offered_unit busy_heap
    ≡ some (
        not (is_suspends_conflict_with busy_unit offered_unit)
        || not (is_suspends_irreversible busy_unit busy_heap))
unfolding is_suspends_conflict
is_suspends_replace_with_example =
    is_suspends_replace_with_lem busy_unit offered_unit busy_heap refl refl

is_order_with_example :
    (x : ℤ) × (y : ℤ) × (is_order_with (job_of 1 start wait) (job_of 2 start wait) unit_atom_after
      ≡ some x)
    × (is_order_with (job_of 2 start wait) (job_of 1 start wait) unit_atom_before ≡ some y)
    × (y ≡ neg x)
    × ((is_positive x ≡ true) ↔ (start ≢ stop))
    × ((is_positive y ≡ true) ↔ (start ≡ stop))
is_order_with_example =
    is_order_with_lem (job_of 1 start wait) (job_of 2 start wait) refl (λ e. cc) (λ e. cc)

job_process_unit_example :
    (r : JobResult) × (job_process_unit start unit_active
        (record { reload_failure = false; will_auto_restart = false })
      ≡ some (some r, is_target start unit_active))
    × ((r ≡ done) ⊎ (r ≡ failed))
    × (start ≢ reload → is_target start unit_active ≡ true → r ≡ done)
job_process_unit_example =
    job_process_unit_lem start unit_active
      (record { reload_failure = false; will_auto_restart = false }) (inl refl) (inl refl)

job_merge_unit_example :
    (job_is_basic_op (job_merge_unit willing try_reload "a") ≡ true)
    × ((job_merge_unit willing try_reload "a" ≡ try_reload) ↔ (job_is_basic_op try_reload ≡ true))
    × (job_merge_unit willing (job_merge_unit willing try_reload "a") "a"
        ≡ job_merge_unit willing try_reload "a")
job_merge_unit_example = job_merge_unit_lem willing try_reload "a"

-- The last id there is was given away, and so was the first.
abbrev wrapping : JobAlloc
wrapping = record { ids = 4294967295 ∷ 0 ∷ []; last_id = 4294967295 }

alloc_id_example :
    (id : ℕ) × (a' : JobAlloc) × (alloc_id (length wrapping.ids + 1) wrapping ≡ some (id, a'))
    × IsAllocated wrapping id a'
alloc_id_example = alloc_id_lem wrapping (omega arith)

alloc_id_wraps :
    alloc_id 3 wrapping ≡ some (1, record { ids = 1 ∷ 4294967295 ∷ 0 ∷ []; last_id = 1 })
unfolding alloc_id
alloc_id_wraps = refl

-- A start comes, and the same start goes.
abbrev some_jobs : List Job
some_jobs = job_of 1 start (end done) ∷ []

some_jobs_fit : (k : JobKind) → num_of k new_kind_num + count_kind k some_jobs < usize
some_jobs_fit k = ground arith

some_jobs_there :
    (k : JobKind) → count_kind k some_jobs ≤ num_of k new_kind_num + count_kind k some_jobs
some_jobs_there k = ground arith

update_kind_num_example :
    (n' : JobKindNum) × (update_kind_num some_jobs some_jobs new_kind_num ≡ some n')
    × ((k : JobKind)
        → num_of k n' + count_kind k some_jobs ≡ num_of k new_kind_num + count_kind k some_jobs)
unfolding job_is_basic_op
update_kind_num_example =
    update_kind_num_lem some_jobs some_jobs new_kind_num (refl, tt) (refl, tt) some_jobs_fit
      some_jobs_there

some_results_fit : (r : JobResult) → cnt_of r new_result_cnt + count_ended r some_jobs < usize
some_results_fit r = ground arith

update_result_cnt_example :
    (c' : JobResultCnt) × (update_result_cnt false some_jobs new_result_cnt ≡ (false, c'))
    × ((r : JobResult) → cnt_of r c' ≡ cnt_of r new_result_cnt + count_ended r some_jobs)
update_result_cnt_example = update_result_cnt_lem some_jobs new_result_cnt some_results_fit

abbrev one_conf : JobConf
one_conf = record { unit = "a"; kind = stop }

abbrev no_deps : DepTable
no_deps = []

job_notify_event_example :
    (cs : List (JobConf × JobMode)) × (job_notify_event no_deps one_conf none ≡ some cs)
    × All (IsAllowed no_deps "a") cs
job_notify_event_example = job_notify_event_lem no_deps one_conf none (inr (inl refl))
