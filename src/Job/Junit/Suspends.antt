-- ===== src/Job/Junit/Suspends.antt =====
-- core/bin/job/junit.rs: adding, removing, flushing and merging the jobs that wait.
use sysmaster.Base.{
  ℕ, Bool, true, false, not, List, [], ◌∷◌, ◌++◌, Option, none, some, get, insert, remove, values,
  assert, ◌>>=◌, ◌>>◌, is_none, if◌then◌else◌,
}
use sysmaster.Job.Kind.{JobKind, kind_eq, JobResult, cancelled, job_is_basic_op}
use sysmaster.Job.Heap.{Heap, wait_ref, merge_ref, finish_ref, finish_all}
use sysmaster.Job.Junit.{JobUnit, update_ready, is_suspends_conflict_with, is_trigger}

-- What every change of the suspends does to the status.
abbrev pub touched : JobUnit → Option JobUnit
touched d = update_ready (record d { order = false; dirty = true })

unfoldable pub insert_suspend : JobUnit → ℕ → Bool → Heap → Option (JobUnit × Heap)
unfolding job_is_basic_op
insert_suspend d r operate h = do
  let kind = (h.job r).kind
  assert (job_is_basic_op kind)
  assert (not (is_trigger d r))
  assert (is_none (get d.suspends kind))
  d' ← touched (record d { suspends = insert d.suspends kind r })
  h' ← if operate then wait_ref h r else some h
  some (d', h')

-- `del_job.finish(result)`, if something was removed
abbrev pub finish_removed : Option ℕ → JobResult → Heap → Option Heap
finish_removed none result h = some h
finish_removed (some r) result h = do (retry, h') ← finish_ref h r result; some h'

unfoldable pub remove_suspend :
    JobUnit → JobKind → JobResult → Heap → Option (Option ℕ × JobUnit × Heap)
remove_suspend d kind result h = do
  let del_job = get d.suspends kind
  d' ← touched (record d { suspends = remove d.suspends kind })
  h' ← finish_removed del_job result h
  some (del_job, d', h')

unfoldable pub flush_suspends : JobUnit → Heap → Option (List ℕ × JobUnit × Heap)
flush_suspends d h = do
  let del_jobs = values d.suspends
  d' ← touched (record d { suspends = [] })
  h' ← finish_all del_jobs cancelled h
  some (del_jobs, d', h')

pub record Union : Type 0 where
  pub own : JobUnit
  pub heap : Heap
  pub add_jobs : List ℕ
  pub update_jobs : List ℕ

-- One round of the loop over `other.suspends`: is there a job of that kind already?
unfoldable pub union_one : Union → ℕ → Option ℕ → Option Union
union_one s o_job (some job) = do
  h ← merge_ref s.heap job o_job
  some (record s { heap = h; update_jobs = s.update_jobs ++ job ∷ [] })
union_one s o_job none = do
  (d, h) ← insert_suspend s.own o_job true s.heap
  some (record s { own = d; heap = h; add_jobs = s.add_jobs ++ o_job ∷ [] })

unfoldable pub union_all : List ℕ → Union → Option Union
union_all [] s = some s
union_all (o_job ∷ rest) s = do
  s' ← union_one s o_job (get s.own.suspends (s.heap.job o_job).kind)
  union_all rest s'

-- The results are the jobs added, deleted and updated, and the new state.
unfoldable pub merge_suspends : JobUnit → JobUnit → Heap → Option (List ℕ × Union)
merge_suspends d o h = do
  (del_jobs, d', h') ← if is_suspends_conflict_with d o then flush_suspends d h else some ([], d, h)
  s ←
      union_all (values o.suspends)
        (record { own = d'; heap = h'; add_jobs = []; update_jobs = [] })
  some (del_jobs, s)
