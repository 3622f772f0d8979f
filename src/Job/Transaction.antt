-- ===== src/Job/Transaction.antt =====
-- core/bin/job/transaction.rs: what a request pulls in, on the stage, and whether the jobs allow it.
-- `none` is a panic or the end of the fuel, which counts the recursive calls of `job_trans_expand`.
pub mod Recorded
pub mod Pulls
pub mod Grown
pub mod Expanded
pub mod Checked
pub mod Closure
pub mod Verified
pub mod Isolated
pub mod Fallback
pub mod Tests
use sysmaster.Base.{
  ℕ, zero, suc, Bool, true, false, not, ◌||◌, ◌&&◌, List, [], ◌∷◌, ◌++◌, Option, none, some, ◌==◌,
  string_eq, assert, ◌>>=◌, ◌>>◌, if◌then◌else◌,
}
use sysmaster.Unit.Relation.AtomNames.{
  UnitRelationAtom, unit_atom_pull_in_start, unit_atom_pull_in_start_ignored,
  unit_atom_pull_in_verify, unit_atom_pull_in_stop, unit_atom_pull_in_stop_ignored,
  unit_atom_propagate_stop, unit_atom_propagate_restart, unit_atom_propagates_reload_to,
  unit_atom_triggered_by, unit_atom_propagate_start_failure, unit_atom_propagate_stop_failure,
}
use sysmaster.Unit.Deps.{DepTable, gets_atom}
use sysmaster.Job.Kind.{
  JobKind, start, stop, reload, restart, verify, nop, try_reload, try_restart, kind_eq, JobMode,
  fail, isolate, trigger, ignore_dependencies, ignore_requirements, mode_eq, JobResult,
}
use sysmaster.Job.Rentry.{UnitId}
use sysmaster.Job.Entry.{Units}
use sysmaster.Job.Process.{job_is_unit_applicable, job_merge_unit}
use sysmaster.Job.Heap.{Heap}
use sysmaster.Job.Junit.{is_nil}
use sysmaster.Job.Table.Units.{
  is_unit_empty, is_suspends_conflict_uv, is_suspends_conflict_with_uv, is_suspends_replace_with_uv,
  get_trigger_info,
}
use sysmaster.Job.Table.Jobs.{JobTable, Stage, record_suspend, finish_trigger_job, remove_suspends}

pub data UnitLoadState : Type 0 where
  load_stub loaded load_not_found load_error load_bad_setting : UnitLoadState
  load_merged load_masked : UnitLoadState

-- The members of `Error` that a transaction meets.
pub data Error : Type 0 where
  err_load_error err_unit_action_e_bad_r err_bad_request err_input err_conflict err_internal : Error

-- `Result<(), Error>`
pub data Answer : Type 0 where
  ok : Answer
  err : Error → Answer

-- What a transaction asks of the units and of their data store.
pub record TransDb : Type 0 where
  pub deps : DepTable
  pub units : Units
  pub load_state : UnitId → UnitLoadState
  pub ignore_on_isolate : UnitId → Bool
  pub all_units : List UnitId

abbrev pub load_complete : UnitLoadState → Bool
load_complete load_stub = false
load_complete load_merged = false
load_complete _ = true

abbrev pub validate_load_state : UnitLoadState → Answer
validate_load_state loaded = ok
validate_load_state _ = err err_load_error

-- The `match` that turns the error of the load state into one of the transaction.
abbrev pub load_answer : Answer → Answer
load_answer ok = ok
load_answer (err err_unit_action_e_bad_r) = err err_bad_request
load_answer (err e) = err err_input

unfoldable pub trans_expand_check_input : TransDb → UnitId → JobKind → Answer
trans_expand_check_input db unit kind =
    if not (load_complete (db.load_state unit))
    then err err_input
    else if not (kind == stop)
    then load_answer (validate_load_state (db.load_state unit))
    else if not (job_is_unit_applicable db.units kind unit)
    then err err_input
    else ok

-- The result of an expansion, with the stage as it left it. An error leaves it half done.
abbrev pub Expansion : Type 0
Expansion = Option (Answer × Stage)

-- `?`: go on with the stage unless there was an error.
abbrev pub and_then : Expansion → (Stage → Expansion) → Expansion
and_then none f = none
and_then (some (ok, s)) f = f s
and_then (some (err e, s)) f = some (err e, s)

-- How a loop takes the error of one unit: `BadRequest` is left out, others end the loop; or all errors
-- are left out.
abbrev pub loop_error : Bool → Error → Answer
loop_error true e = ok
loop_error false err_bad_request = ok
loop_error false e = err e

abbrev pub loop_answer : Bool → Answer → Answer
loop_answer ignored ok = ok
loop_answer ignored (err e) = loop_error ignored e

-- The call of `job_trans_expand` for a unit and a kind.
abbrev pub Expand : Type 0
Expand = Stage → UnitId → JobKind → Expansion

abbrev pub after_one : Bool → Expansion → (Stage → Expansion) → Expansion
after_one ignored none f = none
after_one ignored (some (a, s)) f = and_then (some (loop_answer ignored a, s)) f

-- `for other in others { job_trans_expand(other, kind) }`
unfoldable pub expand_loop : Expand → Bool → JobKind → List UnitId → Stage → Expansion
expand_loop rec ignored kind [] s = some (ok, s)
expand_loop rec ignored kind (other ∷ others) s =
    after_one ignored (rec s other kind) (expand_loop rec ignored kind others)

unfoldable pub trans_expand_start : Expand → DepTable → UnitId → Stage → Expansion
trans_expand_start rec deps unit s0 =
    and_then (expand_loop rec false start (gets_atom deps unit unit_atom_pull_in_start) s0) λ s1.
      and_then (expand_loop rec true start (gets_atom deps unit unit_atom_pull_in_start_ignored) s1)
        λ s2.
          and_then (expand_loop rec false verify (gets_atom deps unit unit_atom_pull_in_verify) s2)
            λ s3.
              and_then (expand_loop rec false stop (gets_atom deps unit unit_atom_pull_in_stop) s3)
                λ s4.
                  expand_loop rec true stop (gets_atom deps unit unit_atom_pull_in_stop_ignored) s4

-- The kinds other than stop and restart are `unreachable!`.
unfoldable pub trans_expand_stop : Expand → DepTable → UnitId → JobKind → Stage → Expansion
trans_expand_stop rec deps unit stop s =
    expand_loop rec false stop (gets_atom deps unit unit_atom_propagate_stop) s
trans_expand_stop rec deps unit restart s =
    expand_loop rec false try_restart (gets_atom deps unit unit_atom_propagate_restart) s
trans_expand_stop rec deps unit kind s = none

unfoldable pub trans_expand_reload : Expand → DepTable → UnitId → Stage → Expansion
trans_expand_reload rec deps unit s =
    expand_loop rec true try_reload (gets_atom deps unit unit_atom_propagates_reload_to) s

unfoldable pub trans_is_expand : JobKind → Bool → JobMode → Bool
trans_is_expand kind new mode =
    if kind == nop
    then false
    else if not new
    then false
    else if mode == ignore_dependencies || mode == ignore_requirements
    then false
    else true

-- The `match` of `job_trans_expand`.
unfoldable pub expand_kind : Expand → DepTable → UnitId → JobKind → Stage → Expansion
expand_kind rec deps unit start s = trans_expand_start rec deps unit s
expand_kind rec deps unit stop s = trans_expand_stop rec deps unit stop s
expand_kind rec deps unit reload s = trans_expand_reload rec deps unit s
expand_kind rec deps unit restart s =
    and_then (trans_expand_start rec deps unit s) λ s'. trans_expand_stop rec deps unit restart s'
expand_kind rec deps unit verify s = some (ok, s)
expand_kind rec deps unit nop s = some (ok, s)
expand_kind rec deps unit kind s = none

-- What follows the check of the input: `kind` is the one that `JobConf::map` made.
unfoldable pub expand_checked : Expand → DepTable → JobMode → Stage → UnitId → JobKind → Expansion
expand_checked rec deps mode s unit kind = do
  (new, s') ← record_suspend s unit kind mode
  if trans_is_expand kind new mode then expand_kind rec deps unit kind s' else some (ok, s')

abbrev pub expand_answer :
    Expand → TransDb → JobMode → Stage → UnitId → JobKind → Answer → Expansion
expand_answer rec db mode s unit kind (err e) = some (err e, s)
expand_answer rec db mode s unit kind ok =
    expand_checked rec db.deps mode s unit (job_merge_unit db.units kind unit)

unfoldable pub job_trans_expand : TransDb → JobMode → ℕ → Expand
job_trans_expand db mode zero s unit kind = none
job_trans_expand db mode (suc fuel) s unit kind =
    expand_answer (job_trans_expand db mode fuel) db mode s unit kind
      (trans_expand_check_input db unit kind)

-- `trans_affect_isolate`: the units of the data store, those without a job in the stage to be stopped.
unfoldable pub isolate_loop : TransDb → JobMode → ℕ → List UnitId → Stage → Expansion
isolate_loop db mode fuel [] s = some (ok, s)
isolate_loop db mode fuel (other ∷ others) s =
    let skip = isolate_loop db mode fuel others s in
    if db.ignore_on_isolate other
    then skip
    else if not (is_unit_empty s.table.t_unit other)
    then skip
    else after_one true (job_trans_expand db mode fuel s other stop)
        (isolate_loop db mode fuel others)

unfoldable pub trans_affect_isolate : TransDb → JobMode → ℕ → Stage → Expansion
trans_affect_isolate db mode fuel s = do
  assert (mode == isolate)
  isolate_loop db mode fuel db.all_units s

unfoldable pub trigger_loop : TransDb → JobMode → ℕ → UnitId → List UnitId → Stage → Expansion
trigger_loop db mode fuel unit [] s = some (ok, s)
trigger_loop db mode fuel unit (other ∷ others) s =
    let skip = trigger_loop db mode fuel unit others s in
    if not (is_unit_empty s.table.t_unit unit)
    then skip
    else after_one true (job_trans_expand db mode fuel s other stop)
        (trigger_loop db mode fuel unit others)

unfoldable pub trans_affect_trigger : TransDb → JobMode → ℕ → UnitId → JobKind → Stage → Expansion
trans_affect_trigger db mode fuel unit kind s = do
  assert (kind == stop)
  assert (mode == trigger)
  trigger_loop db mode fuel unit (gets_atom db.deps unit unit_atom_triggered_by) s

unfoldable pub job_trans_affect : TransDb → JobMode → ℕ → UnitId → JobKind → Stage → Expansion
job_trans_affect db isolate fuel unit kind s = trans_affect_isolate db isolate fuel s
job_trans_affect db trigger fuel unit kind s = trans_affect_trigger db trigger fuel unit kind s
job_trans_affect db mode fuel unit kind s = some (ok, s)

unfoldable pub trans_verify_is_conflict : JobTable → Answer
trans_verify_is_conflict stage =
    if is_suspends_conflict_uv stage.t_unit then err err_conflict else ok

unfoldable pub trans_verify_is_destructive : JobTable → JobTable → JobMode → Heap → Option Answer
trans_verify_is_destructive stage jobs mode h =
    assert (not (is_suspends_conflict_uv jobs.t_unit))
    >> (if not (is_suspends_conflict_with_uv jobs.t_unit stage.t_unit)
        then some ok
        else if mode == fail
        then some (err err_conflict)
        else (is_suspends_replace_with_uv jobs.t_unit stage.t_unit h >>= λ b.
            some (if b then ok else err err_conflict)))

abbrev and_verify : Answer → Option Answer → Option Answer
and_verify ok a = a
and_verify (err e) a = some (err e)

unfoldable pub job_trans_verify : JobTable → JobTable → JobMode → Heap → Option Answer
job_trans_verify stage jobs mode h =
    and_verify (trans_verify_is_conflict stage) (trans_verify_is_destructive stage jobs mode h)
