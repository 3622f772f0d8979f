-- ===== src/Job/Table.antt =====
-- core/bin/job/table.rs: `JobUnitTable`, the jobs of all units and the queue of those that are ready.
-- A unit stands for itself by its id. An `Rc<JobUnit>` in the queue is the id of its unit: the
-- record itself stands in `t_data`, which holds every unit of the queue as long as no unit is removed
-- while it stands on the stack `readys`.
pub mod Ready
pub mod Queue
pub mod Taken
pub mod Popped
pub mod Marked
pub mod Touched
pub mod Triggering
pub mod Consistent
pub mod Dropped
pub mod Finishing
pub mod Tried
pub mod Reached
pub mod Settled
pub mod Synced
pub mod Units
pub mod Entries
pub mod Runnable
pub mod Jobs
pub mod Tests
use sysmaster.Base.{
  Bool, true, false, List, [], Option, none, some, HashMap, get, insert, string_eq,
}
use sysmaster.Job.Rentry.{UnitId}
use sysmaster.Job.Junit.{JobUnit, new_unit}

-- `t_ready` is a `BTreeMap`, here the list of its keys, which ascend. `readys` is a stack, whose top
-- stands last.
pub record JobUnitTable : Type 0 where
  pub t_data : HashMap UnitId JobUnit
  pub t_ready : List UnitId
  pub readys : List UnitId
  pub up_ready : Bool
  pub sync : Bool

abbrev pub new_unit_table : JobUnitTable
new_unit_table = record { t_data = []; t_ready = []; readys = []; up_ready = false; sync = true }

-- A unit's jobs, with `get_mut_uv_pad`'s new entry if there is none.
abbrev pub or_new_unit : UnitId → Option JobUnit → JobUnit
or_new_unit unit none = new_unit unit
or_new_unit unit (some uv) = uv

unfoldable pub uv_pad : JobUnitTable → UnitId → JobUnit
unfolding new_unit
uv_pad t unit = or_new_unit unit (get t.t_data unit)

-- The changed record of a unit, written where every reference to it reads it.
abbrev pub put_uv : JobUnitTable → UnitId → JobUnit → JobUnitTable
put_uv t unit uv = record t { t_data = insert t.t_data unit uv }
