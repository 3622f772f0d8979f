-- ===== src/Job/Table/Runnable.antt =====
-- core/bin/job/table.rs: triggering one unit of the queue, if the order of the units allows it.
use sysmaster.Base.{
  ℕ, Bool, true, false, not, List, [], ◌∷◌, Option, none, some, get, string_eq, assert, ◌>>=◌, ◌>>◌,
  if◌then◌else◌,
}
use sysmaster.Unit.Relation.AtomNames.{UnitRelationAtom, unit_atom_after, unit_atom_before}
use sysmaster.Unit.Deps.{DepTable, gets_atom}
use sysmaster.Job.Kind.{JobResult}
use sysmaster.Job.Rentry.{UnitId}
use sysmaster.Job.Entry.{Units, Job}
use sysmaster.Job.Heap.{Heap}
use sysmaster.Job.Junit.{JobUnit, is_empty}
use sysmaster.Job.Junit.Trigger.{is_next_trigger_order_with, do_trigger, pause_unit}
use sysmaster.Job.Table.{JobUnitTable, put_uv}
use sysmaster.Job.Table.Ready.{ready_pop}

-- One round of the loops of `is_uv_runnable`.
abbrev pub runs_with : JobUnit → Option JobUnit → UnitRelationAtom → Heap → Option Bool
runs_with uv none atom h = some true
runs_with uv (some other_uv) atom h = is_next_trigger_order_with uv other_uv atom h

unfoldable pub runs_before_all :
    JobUnitTable → JobUnit → List UnitId → UnitRelationAtom → Heap → Option Bool
runs_before_all t uv [] atom h = some true
runs_before_all t uv (other ∷ others) atom h = do
  let rest = runs_before_all t uv others atom h
  ok ← runs_with uv (get t.t_data other) atom h
  if ok then rest else some false

unfoldable pub is_uv_runnable : DepTable → JobUnitTable → JobUnit → Heap → Option Bool
is_uv_runnable db t uv h = do
  let before = runs_before_all t uv (gets_atom db uv.unit unit_atom_before) unit_atom_before h
  ok ← runs_before_all t uv (gets_atom db uv.unit unit_atom_after) unit_atom_after h
  if ok then before else some false

-- What a trigger answers: the job that ran and the result that ends it, and the job it interrupted.
abbrev pub Triggered : Type 0
Triggered = Option (Job × Option JobResult) × Option ℕ

abbrev pub trigger_or_pause : Units → Bool → JobUnit → Heap → Option (Triggered × JobUnit × Heap)
trigger_or_pause us true uv h = do
  (info, tend, merge_trigger, uv', h') ← do_trigger us uv h
  some ((some (info, tend), merge_trigger), uv', h')
trigger_or_pause us false uv h = do uv' ← pause_unit uv; some ((none, none), uv', h)

unfoldable pub try_trigger_entry :
    Units → DepTable → JobUnitTable → JobUnit → Heap → Option (Triggered × JobUnit × Heap)
try_trigger_entry us db t uv h = do
  assert (not uv.dirty)
  is_runnable ← is_uv_runnable db t uv h
  (ret, uv', h') ← trigger_or_pause us is_runnable uv h
  assert (not uv'.ready)
  some (ret, record uv' { dirty = false }, h')

-- The unit that was popped, triggered; the table keeps its new record.
abbrev pub trigger_popped :
    Units
    → DepTable
    → JobUnitTable
    → UnitId
    → Option JobUnit
    → Heap
    → Option (Triggered × JobUnitTable × Heap)
trigger_popped us db t u none h = none
trigger_popped us db t u (some uv) h = do
  (ret, uv', h') ← try_trigger_entry us db t uv h
  assert (not (is_empty uv'))
  some (ret, put_uv t u uv', h')

abbrev pub trigger_answer :
    Units
    → DepTable
    → Option UnitId
    → JobUnitTable
    → Heap
    → Option (Option Triggered × JobUnitTable × Heap)
trigger_answer us db none t h = some (none, t, h)
trigger_answer us db (some u) t h = do
  (ret, t', h') ← trigger_popped us db t u (get t.t_data u) h
  some (some ret, t', h')

unfoldable pub do_try_trigger :
    Units
    → DepTable
    → JobUnitTable
    → Option UnitId
    → Heap
    → Option (Option Triggered × JobUnitTable × Heap)
do_try_trigger us db t unit h = do
  assert t.sync
  (uv_try, t') ← ready_pop t unit
  trigger_answer us db uv_try t' h
