-- ===== src/Job/Heap.antt =====
-- The jobs as shared mutable objects. An `Rc<Job>` is the number of its job in a store, which is the
-- job's id: `Job`s compare by it. Every reference is live, so the store is a total function.
pub mod Finish
use sysmaster.Base.{
  ℕ, Bool, ◌≡◌, ◌≢◌, Option, List, [], ◌∷◌, some, ◌==◌, nat_eq, ◌>>=◌, if◌then◌else◌, arith,
}
use sysmaster.Job.Kind.{JobResult}
use sysmaster.Job.Rentry.{JobRe}
use sysmaster.Job.Entry.{Job, TriggerResult, Units, wait_job, merge_attr, run_job, finish_job}

pub record Heap : Type 0 where
  pub job : ℕ → Job
  pub rentry : JobRe

unfoldable pub write : Heap → ℕ → Job → JobRe → Heap
write h r j re = record { job = λ s. if s == r then j else h.job s; rentry = re }

pub read-write_self : (h : Heap) (r : ℕ) (j : Job) (re : JobRe) → (write h r j re).job r ≡ j
unfolding write
read-write_self h r j re = ground (arith, nat_eq.beq_iff r r)

pub read-write_ne :
    (h : Heap) (r s : ℕ) (j : Job) (re : JobRe) → s ≢ r → (write h r j re).job s ≡ h.job s
unfolding write
read-write_ne h r s j re ne = ground (arith, nat_eq.beq_iff s r)

unfoldable pub wait_ref : Heap → ℕ → Option Heap
unfolding wait_job write
wait_ref h r = do (j, re) ← wait_job (h.job r) h.rentry; some (write h r j re)

unfoldable pub merge_ref : Heap → ℕ → ℕ → Option Heap
unfolding merge_attr write
merge_ref h r o = do (j, re) ← merge_attr (h.job r) (h.job o) h.rentry; some (write h r j re)

unfoldable pub run_ref : Units → Heap → ℕ → Option (TriggerResult × Heap)
unfolding run_job write
run_ref u h r = do (t, j, re) ← run_job u (h.job r) h.rentry; some (t, write h r j re)

unfoldable pub finish_ref : Heap → ℕ → JobResult → Option (Bool × Heap)
unfolding finish_job write
finish_ref h r result = do
  (retry, j, re) ← finish_job (h.job r) result h.rentry
  some (retry, write h r j re)

-- `for job in jobs.iter() { job.finish(result); }`
unfoldable pub finish_all : List ℕ → JobResult → Heap → Option Heap
finish_all [] result h = some h
finish_all (r ∷ rs) result h = do (retry, h') ← finish_ref h r result; finish_all rs result h'
