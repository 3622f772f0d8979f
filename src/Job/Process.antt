-- ===== src/Job/Process.antt =====
-- core/bin/job/entry.rs: what a job makes of its unit's state, and which of two jobs goes first.
use sysmaster.Base.{
  Bool, true, false, ◌&&◌, ◌||◌, Option, none, some, ◌==◌, assert, ◌>>◌, if◌then◌else◌, ℤ, pos,
  negsuc, neg, string_eq,
}
use sysmaster.Unit.State.{
  UnitActiveState, unit_active, unit_reloading, unit_in_active, unit_failed, unit_activating,
  unit_de_activating, unit_maintenance, UnitNotifyFlags, is_active_or_reloading,
}
use sysmaster.Unit.Relation.AtomNames.{UnitRelationAtom, unit_atom_after, unit_atom_before, atom_eq}
use sysmaster.Job.Kind.{
  JobKind, start, stop, reload, restart, verify, nop, try_reload, try_restart, reload_or_start,
  kind_eq, JobResult, done, failed,
}
use sysmaster.Job.Rentry.{UnitId}
use sysmaster.Job.Entry.{Units, Job}

unfoldable pub job_process_unit_start : UnitActiveState → Option JobResult × Bool
job_process_unit_start unit_active = (some done, true)
job_process_unit_start unit_activating = (none, true)
job_process_unit_start unit_in_active = (some done, false)
job_process_unit_start unit_failed = (some failed, false)
job_process_unit_start unit_reloading = (none, false)
job_process_unit_start unit_de_activating = (none, false)
job_process_unit_start unit_maintenance = (none, false)

unfoldable pub job_process_unit_stop : UnitActiveState → Option JobResult × Bool
job_process_unit_stop unit_in_active = (some done, true)
job_process_unit_stop unit_failed = (some done, true)
job_process_unit_stop unit_de_activating = (none, true)
job_process_unit_stop unit_active = (some failed, false)
job_process_unit_stop unit_reloading = (some failed, false)
job_process_unit_stop unit_activating = (some failed, false)
job_process_unit_stop unit_maintenance = (some failed, false)

-- The `match` of `job_process_unit_reload`, with the result that its flags choose.
abbrev pub reload_match : JobResult → UnitActiveState → Option JobResult × Bool
reload_match result unit_active = (some result, true)
reload_match result unit_reloading = (none, true)
reload_match result unit_in_active = (some done, false)
reload_match result unit_failed = (some failed, false)
reload_match result unit_activating = (none, false)
reload_match result unit_de_activating = (none, false)
reload_match result unit_maintenance = (none, false)

unfoldable pub job_process_unit_reload : UnitActiveState → UnitNotifyFlags → Option JobResult × Bool
job_process_unit_reload ns flags = reload_match (if flags.reload_failure then failed else done) ns

unfoldable pub job_process_unit :
    JobKind → UnitActiveState → UnitNotifyFlags → Option (Option JobResult × Bool)
unfolding job_process_unit_start job_process_unit_stop job_process_unit_reload
job_process_unit start ns flags = some (job_process_unit_start ns)
job_process_unit stop ns flags = some (job_process_unit_stop ns)
job_process_unit reload ns flags = some (job_process_unit_reload ns flags)
job_process_unit _ ns flags = none

unfoldable pub job_is_unit_applicable : Units → JobKind → UnitId → Bool
job_is_unit_applicable u start unit = true
job_is_unit_applicable u verify unit = true
job_is_unit_applicable u nop unit = true
job_is_unit_applicable u stop unit = if u.get_perpetual unit then false else true
job_is_unit_applicable u restart unit = u.can_start unit && u.can_stop unit
job_is_unit_applicable u try_restart unit = u.can_start unit && u.can_stop unit
job_is_unit_applicable u reload unit = u.can_reload unit
job_is_unit_applicable u try_reload unit = u.can_reload unit
job_is_unit_applicable u reload_or_start unit = u.can_start unit && u.can_reload unit

-- The `match` of `job_merge_unit`: is the unit active or reloading?
abbrev pub merge_match : JobKind → Bool → JobKind
merge_match try_reload false = nop
merge_match try_reload true = reload
merge_match try_restart false = nop
merge_match try_restart true = restart
merge_match reload_or_start false = start
merge_match reload_or_start true = reload
merge_match kind _ = kind

unfoldable pub job_merge_unit : Units → JobKind → UnitId → JobKind
job_merge_unit u kind unit = merge_match kind (is_active_or_reloading (u.active_state unit))

abbrev pub stop_first : JobKind → ℤ
stop_first stop = pos 1
stop_first _ = negsuc 0

-- `job_order_compare` at `UnitAtomBefore`, which its call at `UnitAtomAfter` falls back on.
unfoldable pub job_order_before : JobKind → JobKind → ℤ
job_order_before rk_a rk_b = if rk_a == nop || rk_b == nop then pos 0 else stop_first rk_b

-- The result is an `i8`: 1 puts the second job first, -1 the first, 0 leaves them independent.
unfoldable pub job_order_compare : JobKind → JobKind → UnitRelationAtom → ℤ
unfolding job_order_before
job_order_compare rk_a rk_b atom =
    if rk_a == nop || rk_b == nop
    then pos 0
    else if atom == unit_atom_after
    then neg (job_order_before rk_b rk_a)
    else stop_first rk_b

unfoldable pub is_order_with : Job → Job → UnitRelationAtom → Option ℤ
unfolding job_order_compare
is_order_with j o atom = do
  assert (atom == unit_atom_after || atom == unit_atom_before)
  some (
      if j.attr.ignore_order || o.attr.ignore_order
      then pos 0
      else job_order_compare j.run_kind o.run_kind atom)
