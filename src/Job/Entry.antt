-- ===== src/Job/Entry.antt =====
-- core/bin/job/entry.rs: a job, from `Init` over `Wait` and `Running` to `End`.
-- `none` is a panic. A method on a job returns it with the database that it wrote.
use sysmaster.Base.{
  ℕ, Bool, true, false, ◌||◌, not, Option, none, some, ◌==◌, assert, ◌>>=◌, ◌>>◌, if◌then◌else◌,
}
use sysmaster.Unit.State.{UnitActiveState, unit_active, unit_reloading, unit_activating}
use sysmaster.Job.Kind.{
  JobKind, start, stop, reload, restart, verify, nop, kind_eq, JobAttr, or_attr, JobResult, done,
  failed, dependency, skipped, invalid, assertion, un_supported, once, JobStage, init, wait,
  running, end, is_init, is_wait, is_running, JobMode, ignore_dependencies, replace_irreversible,
  mode_eq,
}
use sysmaster.Job.Rentry.{
  UnitId, JobRe, trigger_insert, trigger_remove, suspends_insert, suspends_remove,
}

-- The errors of a unit's action. `other` stands for the other members of `Error`.
pub data UnitError : Type 0 where
  e_again e_already e_comm e_bad_r e_no_exec e_proto e_op_not_supp e_nolink : UnitError
  e_stale e_failed e_inval e_busy e_noent e_canceled other : UnitError

-- `Result<(), Error>`, and `Result<(), Option<JobResult>>`.
pub data ActionResult : Type 0 where
  action_ok : ActionResult
  action_err : UnitError → ActionResult

pub data TriggerResult : Type 0 where
  triggered : TriggerResult
  trigger_err : Option JobResult → TriggerResult

-- What the engine asks of a unit: its state, its abilities, and what an action answers.
pub record Units : Type 0 where
  pub active_state : UnitId → UnitActiveState
  pub get_perpetual : UnitId → Bool
  pub can_start : UnitId → Bool
  pub can_stop : UnitId → Bool
  pub can_reload : UnitId → Bool
  pub start_unit : UnitId → ActionResult
  pub stop_unit : UnitId → Bool → ActionResult
  pub reload_unit : UnitId → ActionResult

pub record Job : Type 0 where
  pub id : ℕ
  pub unit : UnitId
  pub kind : JobKind
  pub attr : JobAttr
  pub run_kind : JobKind
  pub stage : JobStage

unfoldable pub job_rkind_new : JobKind → JobKind
job_rkind_new restart = stop
job_rkind_new kind = kind

unfoldable pub job_rkind_map : JobKind → JobKind → JobKind
job_rkind_map restart stop = start
job_rkind_map restart start = start
job_rkind_map kind last_rkind = kind

-- `Job::new`
unfoldable pub new_job : ℕ → UnitId → JobKind → Job
unfolding job_rkind_new
new_job id unit kind = record {
  id = id;
  unit = unit;
  kind = kind;
  attr = record { ignore_order = false; irreversible = false; force = false; no_relevancy = false };
  run_kind = job_rkind_new kind;
  stage = init;
}

unfoldable pub init_attr : Job → JobMode → Option Job
init_attr j mode = do
  assert (is_init j.stage)
  let a = j.attr
  let b =
      if mode == ignore_dependencies || j.kind == nop then record a { ignore_order = true } else a
  let c = if mode == replace_irreversible then record b { irreversible = true } else b
  some (record j { attr = c })

unfoldable pub merge_attr : Job → Job → JobRe → Option (Job × JobRe)
unfolding or_attr suspends_insert
merge_attr j o re = do
  assert (is_wait j.stage)
  assert (j.kind == o.kind)
  let j' = record j { attr = or_attr j.attr o.attr }
  re' ← suspends_insert re j'.unit j'.kind j'.attr
  some (j', re')

-- `Job::wait`
unfoldable pub wait_job : Job → JobRe → Option (Job × JobRe)
unfolding suspends_insert
wait_job j re = do
  assert (is_init j.stage)
  re' ← suspends_insert re j.unit j.kind j.attr
  some (record j { stage = wait }, re')

unfoldable pub job_trigger_err_to_result : UnitError → Option JobResult
job_trigger_err_to_result e_again = none
job_trigger_err_to_result e_already = some done
job_trigger_err_to_result e_comm = some done
job_trigger_err_to_result e_bad_r = some skipped
job_trigger_err_to_result e_no_exec = some invalid
job_trigger_err_to_result e_proto = some assertion
job_trigger_err_to_result e_op_not_supp = some un_supported
job_trigger_err_to_result e_nolink = some dependency
job_trigger_err_to_result e_stale = some once
job_trigger_err_to_result e_failed = some failed
job_trigger_err_to_result e_inval = some failed
job_trigger_err_to_result e_busy = some failed
job_trigger_err_to_result e_noent = some failed
job_trigger_err_to_result e_canceled = some failed
job_trigger_err_to_result other = some skipped

unfoldable pub verify_result : UnitActiveState → UnitError
verify_result unit_active = e_already
verify_result unit_reloading = e_already
verify_result unit_activating = e_again
verify_result _ = e_bad_r

-- The call of the unit in `job_trigger_unit`; `none` is its `unreachable!`.
unfoldable pub call_unit : Units → UnitId → JobKind → Bool → Option ActionResult
unfolding verify_result
call_unit u unit start force = some (u.start_unit unit)
call_unit u unit stop force = some (u.stop_unit unit force)
call_unit u unit reload force = some (u.reload_unit unit)
call_unit u unit verify force = some (action_err (verify_result (u.active_state unit)))
call_unit u unit nop force = some (action_err e_already)
call_unit u unit _ force = none

abbrev to_trigger_result : ActionResult → TriggerResult
to_trigger_result action_ok = triggered
to_trigger_result (action_err e) = trigger_err (job_trigger_err_to_result e)

unfoldable pub job_trigger_unit : Units → UnitId → JobKind → Bool → Option TriggerResult
unfolding call_unit job_trigger_err_to_result
job_trigger_unit u unit run_kind force = do
  ret ← call_unit u unit run_kind force
  some (to_trigger_result ret)

-- `Job::run`. The timer that it may arm has no effect on the job, and is left out.
unfoldable pub run_job : Units → Job → JobRe → Option (TriggerResult × Job × JobRe)
unfolding job_trigger_unit trigger_insert suspends_remove
run_job u j re = do
  assert (is_wait j.stage || is_running j.stage)
  let j' = record j { stage = running }
  re' ←
      if is_wait j.stage
      then trigger_insert (suspends_remove re j.unit j.kind) j.unit j.kind j.attr
      else some re
  r ← job_trigger_unit u j.unit j.run_kind j.attr.force
  some (r, j', re')

-- `Job::update_runkind`: is there anything else to do?
unfoldable pub update_runkind : Job → Bool × Job
unfolding job_rkind_map
update_runkind j =
    let rkind = job_rkind_map j.kind j.run_kind in
    (not (j.run_kind == rkind), record j { run_kind = rkind })

abbrev next_runkind : JobResult → Job → Bool × Job
next_runkind done j = update_runkind j
next_runkind _ j = (false, j)

-- `Job::finish`
unfoldable pub finish_job : Job → JobResult → JobRe → Option (Bool × Job × JobRe)
unfolding update_runkind suspends_remove trigger_remove
finish_job j result re = do
  assert (is_wait j.stage || is_running j.stage)
  let (retry, j') = next_runkind result j in
      some (
        if retry then (true, record j' { stage = running }, re) else (
          false,
          record j' { stage = end result },
          if is_wait j.stage then suspends_remove re j.unit j.kind else trigger_remove re j.unit,
        ))
