-- ===== src/Job/Lifecycle.antt =====
-- core/bin/job/entry.rs: the life of one job, and the database entries that recover it.
pub mod Ended
use sysmaster.Base.{
  ℕ, Bool, true, false, ◌≡◌, ◌≢◌, ◌⊎◌, sym, subst, ◌||◌, none, some, arith, if◌then◌else◌,
  get-insert_self, get-remove_self, string_eq,
}
use sysmaster.Job.Kind.{
  JobKind, start, stop, restart, kind_eq, JobResult, done, is_init, is_wait, is_running, JobMode,
  job_is_basic_op, running, end, mode_eq, or_attr,
}
use sysmaster.Job.Rentry.{
  UnitId, JobRe, trigger_get, suspends_get, trigger_remove, suspends_remove, key_eq,
}
use sysmaster.Job.Entry.{
  Units, Job, TriggerResult, new_job, init_attr, merge_attr, wait_job, run_job, finish_job,
}

-- One call on a job that does not panic. A job that waits is not finished with the result `Done`, which
-- the code does not test.
pub data JobStep (j : Job) (re : JobRe) (j' : Job) (re' : JobRe) : Type 0 where
  inits : (m : JobMode) → init_attr j m ≡ some j' → re' ≡ re → JobStep j re j' re'
  waits : wait_job j re ≡ some (j', re') → JobStep j re j' re'
  merges : (o : Job) → merge_attr j o re ≡ some (j', re') → JobStep j re j' re'
  runs : (u : Units) (r : TriggerResult) → run_job u j re ≡ some (r, j', re') → JobStep j re j' re'
  finishes :
      (r : JobResult) (retry : Bool)
      → (is_wait j.stage ≡ true → r ≢ done)
      → finish_job j r re ≡ some (retry, j', re')
      → JobStep j re j' re'

-- What the database holds of a job, in each stage, and which action it is at.
pub record IsMirrored (j : Job) (re : JobRe) : Type 0 where
  pub suspended : suspends_get re j.unit j.kind ≡ (if is_wait j.stage then some j.attr else none)
  pub triggered :
      is_running j.stage ≡ true
      → trigger_get re j.unit ≡ some (record { kind = j.kind; attr = j.attr })
  pub basic : is_init j.stage ≡ false → job_is_basic_op j.kind ≡ true
  pub action :
      (j.run_kind ≡ j.kind) × (j.kind ≢ restart)
      ⊎ (j.kind ≡ restart) × ((j.run_kind ≡ stop) ⊎ (j.run_kind ≡ start))

init_attr-IsMirrored :
    (j j' : Job) (re : JobRe) (m : JobMode)
    → init_attr j m ≡ some j'
    → IsMirrored j re
    → IsMirrored j' re
unfolding init_attr suspends_get trigger_get
init_attr-IsMirrored j j' re m e h = ground arith

wait_job-IsMirrored :
    (j j' : Job) (re re' : JobRe)
    → wait_job j re ≡ some (j', re')
    → IsMirrored j re
    → IsMirrored j' re'
unfolding wait_job suspends_get trigger_get
wait_job-IsMirrored j j' re re' e h =
    ground (arith, get-insert_self re.suspends (record { unit_id = j.unit; kind = j.kind }) j.attr)

merge_attr-IsMirrored :
    (j o j' : Job) (re re' : JobRe)
    → merge_attr j o re ≡ some (j', re')
    → IsMirrored j re
    → IsMirrored j' re'
unfolding merge_attr suspends_get trigger_get
merge_attr-IsMirrored j o j' re re' e h = ground (
  arith,
  get-insert_self re.suspends (record { unit_id = j.unit; kind = j.kind }) (or_attr j.attr o.attr),
)

run_job-IsMirrored :
    (u : Units) (j j' : Job) (re re' : JobRe) (r : TriggerResult)
    → run_job u j re ≡ some (r, j', re')
    → IsMirrored j re
    → IsMirrored j' re'
unfolding run_job suspends_get trigger_get
run_job-IsMirrored u j j' re re' r e h = ground (
  arith,
  get-remove_self re.suspends (record { unit_id = j.unit; kind = j.kind }),
  get-insert_self re.trigger j.unit (record { kind = j.kind; attr = j.attr }),
)

finish_job-IsMirrored :
    (j j' : Job) (re re' : JobRe) (r : JobResult) (retry : Bool)
    → (is_wait j.stage ≡ true → r ≢ done)
    → finish_job j r re ≡ some (retry, j', re')
    → IsMirrored j re
    → IsMirrored j' re'
unfolding finish_job suspends_get trigger_get
finish_job-IsMirrored j j' re re' r retry w e h =
    ground (arith, get-remove_self re.suspends (record { unit_id = j.unit; kind = j.kind }))

JobStep-IsMirrored :
    {j j' : Job} {re re' : JobRe} → JobStep j re j' re' → IsMirrored j re → IsMirrored j' re'
JobStep-IsMirrored {j} {j'} {re} {re'} (inits m e same) h =
    subst (IsMirrored j') (sym same) (init_attr-IsMirrored j j' re m e h)
JobStep-IsMirrored {j} {j'} {re} {re'} (waits e) h = wait_job-IsMirrored j j' re re' e h
JobStep-IsMirrored {j} {j'} {re} {re'} (merges o e) h = merge_attr-IsMirrored j o j' re re' e h
JobStep-IsMirrored {j} {j'} {re} {re'} (runs u r e) h = run_job-IsMirrored u j j' re re' r e h
JobStep-IsMirrored {j} {j'} {re} {re'} (finishes r retry w e) h =
    finish_job-IsMirrored j j' re re' r retry w e h

-- The jobs that are reached: any sequence of these calls on a new job, over a database that holds no
-- entry of its own.
pub data JobReach : Job → JobRe → Type 0 where
  fresh :
      (id : ℕ) (unit : UnitId) (kind : JobKind) (re : JobRe)
      → suspends_get re unit kind ≡ none
      → JobReach (new_job id unit kind) re
  step : {j j' : Job} {re re' : JobRe} → JobReach j re → JobStep j re j' re' → JobReach j' re'

new_job-IsMirrored :
    (id : ℕ) (unit : UnitId) (kind : JobKind) (re : JobRe)
    → suspends_get re unit kind ≡ none
    → IsMirrored (new_job id unit kind) re
unfolding new_job
new_job-IsMirrored id unit kind re e = ground (arith, kind_eq.beq_iff kind restart)

pub JobReach-IsMirrored : {j : Job} {re : JobRe} → JobReach j re → IsMirrored j re
JobReach-IsMirrored (fresh id unit kind re e) = new_job-IsMirrored id unit kind re e
JobReach-IsMirrored (step r s) = JobStep-IsMirrored s (JobReach-IsMirrored r)

IsMirrored-run_job :
    (u : Units) (j : Job) (re : JobRe)
    → IsMirrored j re
    → (is_wait j.stage || is_running j.stage) ≡ true
    → run_job u j re ≢ none
unfolding run_job job_is_basic_op
IsMirrored-run_job u j re h live = ground arith

-- A job that was reached in stage `Wait` or `Running` runs without a panic, whatever its unit
-- answers: it never asks the unit for a kind of action that it cannot do.
pub run_job_total :
    (u : Units) {j : Job} {re : JobRe}
    → JobReach j re
    → (is_wait j.stage || is_running j.stage) ≡ true
    → run_job u j re ≢ none
run_job_total u {j} {re} r = IsMirrored-run_job u j re (JobReach-IsMirrored r)

IsMirrored-finish_job :
    (j : Job) (r : JobResult) (re : JobRe)
    → IsMirrored j re
    → (is_wait j.stage || is_running j.stage) ≡ true
    → (r ≡ done
        → j.kind ≡ restart
        → j.run_kind ≡ stop
        → finish_job j r re ≡ some (true, record j { run_kind = start; stage = running }, re))
      × ((r ≢ done) ⊎ (j.kind ≢ restart) ⊎ (j.run_kind ≢ stop)
          → finish_job j r re
            ≡ some (
              false,
              record j { stage = end r },
              if is_wait j.stage
                  then suspends_remove re j.unit j.kind
                  else trigger_remove re j.unit,
            ))
unfolding finish_job
IsMirrored-finish_job j r re h live = ground arith

pub finish_job_steps :
    {j : Job} {re : JobRe} (r : JobResult)
    → JobReach j re
    → (is_wait j.stage || is_running j.stage) ≡ true
    → (r ≡ done
        → j.kind ≡ restart
        → j.run_kind ≡ stop
        → finish_job j r re ≡ some (true, record j { run_kind = start; stage = running }, re))
      × ((r ≢ done) ⊎ (j.kind ≢ restart) ⊎ (j.run_kind ≢ stop)
          → finish_job j r re
            ≡ some (
              false,
              record j { stage = end r },
              if is_wait j.stage
                  then suspends_remove re j.unit j.kind
                  else trigger_remove re j.unit,
            ))
finish_job_steps {j} {re} r reach = IsMirrored-finish_job j r re (JobReach-IsMirrored reach)

-- A reached job that runs is ended by at most two results `Done`: if the first asks for another run,
-- the second does not.
pub finish_job_twice :
    {j j' j'' : Job} {re re' re'' : JobRe} {retry retry' : Bool}
    → JobReach j re
    → finish_job j done re ≡ some (retry, j', re')
    → finish_job j' done re' ≡ some (retry', j'', re'')
    → (retry' ≡ false) × (j''.stage ≡ end done)
unfolding finish_job
finish_job_twice {j} {re = re} reach e e' = ground (arith, JobReach-IsMirrored reach)
