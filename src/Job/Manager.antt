-- ===== src/Job/Manager.antt =====
-- core/bin/job/manager.rs: `JobManagerData`, a request as a whole: check, expand, affect, verify, commit.
pub mod Isolating
pub mod TriggerMerge
mod Tests
use sysmaster.Base.{
  ℕ, Bool, true, false, not, ◌&&◌, ◌||◌, List, [], ◌∷◌, map, Option, none, some, get, ◌==◌,
  string_eq, ◌>>=◌, ◌>>◌, if◌then◌else◌,
}
use sysmaster.Job.Kind.{
  JobKind, start, stop, reload, restart, verify, nop, kind_eq, JobMode, isolate, trigger, mode_eq,
  JobAttr, or_attr,
}
use sysmaster.Job.Rentry.{UnitId, JobRe, JobReTrigData, trigger_get, trigger_insert}
use sysmaster.Job.Heap.{Heap}
use sysmaster.Job.Alloc.{JobAlloc}
use sysmaster.Job.Stat.{JobStat, update_changes}
use sysmaster.Job.Table.Jobs.{
  JobTable, new_table, Stage, Committed, CommitAnswer, committed, commit_internal, commit,
}
use sysmaster.Job.Transaction.{
  TransDb, Error, err_input, err_conflict, err_internal, Answer, ok, err, Expansion,
  job_trans_expand, job_trans_affect, job_trans_verify,
}

-- The part of `JobManagerData` that a request reads and writes. The stage is made anew for each.
pub record Manager : Type 0 where
  pub jobs : JobTable
  pub ja : JobAlloc
  pub heap : Heap
  pub stat : JobStat

unfoldable pub job_trans_check_input : JobKind → JobMode → Answer
job_trans_check_input kind mode =
    if mode == isolate && not (kind == start)
    then err err_input
    else if mode == trigger && not (kind == stop)
    then err err_input
    else ok

-- `Result<()>` with `JobAffect`, and what the manager became.
pub data ExecAnswer : Type 0 where
  exec_ok : Manager → Committed → ExecAnswer
  exec_err : Error → Manager → ExecAnswer

-- What a request that fails leaves: its jobs stay on the stage, and are dropped with it.
abbrev pub left : Manager → Stage → Manager
left m s = record m { ja = s.ja; heap = s.heap }

abbrev pub exec_stat : Manager → Stage → CommitAnswer → Option ExecAnswer
exec_stat m s commit_internal = some (exec_err err_internal (left m s))
exec_stat m s (committed c) = do
  stat ←
      update_changes (map c.heap.job c.adds) (map c.heap.job c.dels) (map c.heap.job c.updates)
        m.stat
  some (exec_ok (record { jobs = c.jobs; ja = s.ja; heap = c.heap; stat = stat }) c)

abbrev pub exec_commit : TransDb → JobMode → Manager → Stage → Answer → Option ExecAnswer
exec_commit db mode m s (err e) = some (exec_err e (left m s))
exec_commit db mode m s ok =
    commit db.units db.deps db.ignore_on_isolate m.jobs s.table mode s.heap >>= λ c. exec_stat m s c

-- The steps on the stage, with the error that each may end with.
abbrev pub exec_verify : TransDb → JobMode → Manager → Expansion → Option ExecAnswer
exec_verify db mode m none = none
exec_verify db mode m (some (err e, s)) = some (exec_err e (left m s))
exec_verify db mode m (some (ok, s)) =
    job_trans_verify s.table m.jobs mode s.heap >>= λ a. exec_commit db mode m s a

abbrev pub exec_affect :
    TransDb → JobMode → ℕ → Manager → UnitId → JobKind → Expansion → Option ExecAnswer
exec_affect db mode fuel m unit kind none = none
exec_affect db mode fuel m unit kind (some (err e, s)) = some (exec_err e (left m s))
exec_affect db mode fuel m unit kind (some (ok, s)) =
    exec_verify db mode m (job_trans_affect db mode fuel unit kind s)

abbrev pub fresh_stage : Manager → Stage
fresh_stage m = record { table = new_table; ja = m.ja; heap = m.heap }

abbrev pub exec_checked :
    TransDb → JobMode → ℕ → Manager → UnitId → JobKind → Answer → Option ExecAnswer
exec_checked db mode fuel m unit kind (err e) = some (exec_err e m)
exec_checked db mode fuel m unit kind ok =
    exec_affect db mode fuel m unit kind (job_trans_expand db mode fuel (fresh_stage m) unit kind)

unfoldable pub exec : TransDb → JobMode → ℕ → Manager → UnitId → JobKind → Option ExecAnswer
exec db mode fuel m unit kind =
    exec_checked db mode fuel m unit kind (job_trans_check_input kind mode)

-- core/bin/job/junit.rs: which kinds of a running job outlive a new one of the same unit. The kinds that
-- are not basic are `unreachable!`.
unfoldable pub job_merge_trigger_iskeep : JobKind → Option Bool
job_merge_trigger_iskeep start = some false
job_merge_trigger_iskeep reload = some false
job_merge_trigger_iskeep restart = some false
job_merge_trigger_iskeep stop = some true
job_merge_trigger_iskeep verify = some true
job_merge_trigger_iskeep nop = some true
job_merge_trigger_iskeep kind = none

unfoldable pub job_merge_trigger_map : JobKind → Option JobKind
job_merge_trigger_map old = do
  keep ← job_merge_trigger_iskeep old
  some (if keep then old else restart)

-- `JobAttr::new(true, true, force, no_relevancy)`
abbrev forced_attr : Bool → Bool → JobAttr
forced_attr force no_relevancy = record {
  ignore_order = true;
  irreversible = true;
  force = force;
  no_relevancy = no_relevancy;
}

abbrev old_trigger : Bool → Option JobReTrigData → JobReTrigData
old_trigger force none = record { kind = restart; attr = forced_attr force true }
old_trigger force (some old) = old

-- `rentry_trigger_merge`: the running job that the database will have of a unit.
unfoldable pub rentry_trigger_merge : JobRe → UnitId → Bool → Option JobRe
rentry_trigger_merge re unit_id force = do
  let old = old_trigger force (trigger_get re unit_id)
  relevancy ← job_merge_trigger_iskeep old.kind
  k_n ← job_merge_trigger_map old.kind
  trigger_insert re unit_id k_n (or_attr (forced_attr force (not relevancy)) old.attr)
