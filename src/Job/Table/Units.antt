-- ===== src/Job/Table/Units.antt =====
-- core/bin/job/table.rs: looking jobs up, adding them, and the tests on the jobs of all units.
-- A panic is `none`, and a method returns the changed table.
use sysmaster.Base.{
  ℕ, Bool, true, false, ◌||◌, List, [], ◌∷◌, Option, none, some, HashMap, get, values, contains_key,
  string_eq, assert, ◌>>=◌, ◌>>◌, if◌then◌else◌,
}
use sysmaster.Job.Kind.{JobKind, kind_eq}
use sysmaster.Job.Rentry.{UnitId}
use sysmaster.Job.Heap.{Heap}
use sysmaster.Job.Junit.{JobUnit}
use sysmaster.Job.Junit as Junit
use sysmaster.Job.Junit.Suspends as Suspends
use sysmaster.Job.Junit.Trigger as Trigger
use sysmaster.Job.Table.{JobUnitTable, uv_pad, put_uv}

unfoldable pub insert_suspend_uv : JobUnitTable → ℕ → Heap → Option (JobUnitTable × Heap)
insert_suspend_uv t job h = do
  let unit = (h.job job).unit
  (uv, h') ← Suspends.insert_suspend (uv_pad t unit) job false h
  assert uv.dirty
  some (record (put_uv t unit uv) { sync = false }, h')

unfoldable pub insert_trigger_uv : JobUnitTable → ℕ → Heap → Option JobUnitTable
insert_trigger_uv t job h = do
  let unit = (h.job job).unit
  uv ← Trigger.insert_trigger (uv_pad t unit) job h
  assert uv.dirty
  some (record (put_uv t unit uv) { sync = false })

abbrev pub suspend_of : Option JobUnit → JobKind → Option ℕ
suspend_of none kind = none
suspend_of (some uv) kind = get uv.suspends kind

unfoldable pub get_suspend : JobUnitTable → UnitId → JobKind → Option ℕ
get_suspend t unit kind = suspend_of (get t.t_data unit) kind

abbrev suspends_of : Option JobUnit → List ℕ
suspends_of none = []
suspends_of (some uv) = values uv.suspends

unfoldable pub get_suspends : JobUnitTable → UnitId → List ℕ
get_suspends t unit = suspends_of (get t.t_data unit)

abbrev with_pause : Option ℕ → Bool → Option (ℕ × Bool)
with_pause none pause = none
with_pause (some job) pause = some (job, pause)

abbrev trigger_of : Option JobUnit → Option (ℕ × Bool)
trigger_of none = none
trigger_of (some uv) = with_pause uv.trigger uv.pause

unfoldable pub get_trigger_info : JobUnitTable → UnitId → Option (ℕ × Bool)
get_trigger_info t unit = trigger_of (get t.t_data unit)

-- As the code has it: true if the table holds an entry for the unit.
unfoldable pub is_unit_empty : JobUnitTable → UnitId → Bool
is_unit_empty t unit = contains_key t.t_data unit

unfoldable pub any_conflict : HashMap UnitId JobUnit → Bool
any_conflict [] = false
any_conflict ((unit, uv) ∷ m) = Junit.is_suspends_conflict uv || any_conflict m

unfoldable pub is_suspends_conflict_uv : JobUnitTable → Bool
is_suspends_conflict_uv t = any_conflict t.t_data

-- One round of the loop of `is_suspends_conflict_with_uv`.
abbrev pub conflicts_at : JobUnit → Option JobUnit → Bool
conflicts_at uv none = false
conflicts_at uv (some o_uv) = Junit.is_suspends_conflict_with uv o_uv

unfoldable pub any_conflict_with : HashMap UnitId JobUnit → HashMap UnitId JobUnit → Bool
any_conflict_with [] o = false
any_conflict_with ((unit, uv) ∷ m) o = conflicts_at uv (get o unit) || any_conflict_with m o

unfoldable pub is_suspends_conflict_with_uv : JobUnitTable → JobUnitTable → Bool
is_suspends_conflict_with_uv t other = any_conflict_with t.t_data other.t_data

-- And of `is_suspends_replace_with_uv`.
abbrev pub replaceable_at : JobUnit → Option JobUnit → Heap → Option Bool
replaceable_at uv none h = some true
replaceable_at uv (some o_uv) h = Junit.is_suspends_replace_with uv o_uv h

unfoldable pub all_replaceable :
    HashMap UnitId JobUnit → HashMap UnitId JobUnit → Heap → Option Bool
all_replaceable [] o h = some true
all_replaceable ((unit, uv) ∷ m) o h = do
  let rest = all_replaceable m o h
  ok ← replaceable_at uv (get o unit) h
  if ok then rest else some false

unfoldable pub is_suspends_replace_with_uv : JobUnitTable → JobUnitTable → Heap → Option Bool
is_suspends_replace_with_uv t other h = all_replaceable t.t_data other.t_data h
