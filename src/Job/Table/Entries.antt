-- ===== src/Job/Table/Entries.antt =====
-- core/bin/job/table.rs: the operations that keep the table in step with its queue, unit by unit.
use sysmaster.Base.{
  ℕ, Bool, true, false, not, List, [], ◌∷◌, ◌++◌, Option, none, some, HashMap, get, keys, is_some,
  string_eq, assert, ◌>>=◌, ◌>>◌, if◌then◌else◌,
}
use sysmaster.Job.Kind.{JobKind, JobResult}
use sysmaster.Job.Rentry.{UnitId}
use sysmaster.Job.Entry.{Units}
use sysmaster.Job.Heap.{Heap}
use sysmaster.Job.Junit.{JobUnit}
use sysmaster.Job.Junit.Suspends.{remove_suspend, flush_suspends, merge_suspends}
use sysmaster.Job.Junit.Reshuffle.{reshuffle}
use sysmaster.Job.Junit.Trigger.{finish_trigger, resume_unit}
use sysmaster.Job.Table.{JobUnitTable, uv_pad, put_uv}
use sysmaster.Job.Table.Ready.{ready_sync, try_gc_empty_unit}

-- `uv.clear_dirty()` on the record that the table holds.
abbrev pub clear_with : JobUnitTable → UnitId → Option JobUnit → Option JobUnitTable
clear_with t unit none = none
clear_with t unit (some uv) = some (put_uv t unit (record uv { dirty = false }))

unfoldable pub clear_dirty : JobUnitTable → UnitId → Option JobUnitTable
clear_dirty t unit = clear_with t unit (get t.t_data unit)

unfoldable pub reshuffle_entry :
    Units → JobUnitTable → UnitId → JobUnit → Heap → Option (List ℕ × JobUnitTable × Heap)
reshuffle_entry us t u uv h =
    if uv.dirty
    then (reshuffle us uv h >>= λ (merge_jobs, uv', h').
        clear_dirty (ready_sync t u uv') u >>= λ t'. some (merge_jobs, t', h'))
    else some ([], put_uv t u uv, h)

unfoldable pub finish_entry :
    JobUnitTable → UnitId → JobUnit → JobResult → Heap → Option (Option ℕ × JobUnitTable × Heap)
finish_entry t u uv result h = do
  assert (not uv.dirty)
  (del_trigger, uv', h') ← finish_trigger uv result h
  t' ← clear_dirty (ready_sync t u uv') u
  some (del_trigger, t', h')

abbrev pub push : List ℕ → Option ℕ → List ℕ
push jobs none = jobs
push jobs (some job) = jobs ++ job ∷ []

-- The second removal of `remove_entry_uv`, if there is a second kind.
abbrev pub remove_second :
    JobUnit → Option JobKind → JobResult → Heap → Option (Option ℕ × JobUnit × Heap)
remove_second uv none result h = some (none, uv, h)
remove_second uv (some k2) result h = remove_suspend uv k2 result h

unfoldable pub remove_entry_uv :
    Units
    → JobUnitTable
    → UnitId
    → JobUnit
    → JobKind
    → Option JobKind
    → JobResult
    → Heap
    → Option (List ℕ × JobUnitTable × Heap)
remove_entry_uv us t u uv kind1 kind2 result h = do
  assert (not uv.dirty)
  (j1, uv1, h1) ← remove_suspend uv kind1 result h
  (j2, uv2, h2) ← remove_second uv1 kind2 result h1
  (merge_jobs, t', h') ← reshuffle_entry us t u uv2 h2
  some (push (push [] j1) j2, t', h')

unfoldable pub resume_entry : JobUnitTable → UnitId → JobUnit → Option JobUnitTable
resume_entry t u uv = do
  assert (not uv.dirty)
  if uv.pause then (resume_unit uv >>= λ uv'. clear_dirty (ready_sync t u uv') u) else some t

-- The loop of `JobUnitTable::reshuffle`, over the units that the table had when it began.
abbrev pub reshuffle_one :
    Units → JobUnitTable → UnitId → Option JobUnit → Heap → Option (List ℕ × JobUnitTable × Heap)
reshuffle_one us t u none h = none
reshuffle_one us t u (some uv) h = do
  (merge_jobs, t', h') ← reshuffle_entry us t u uv h
  t'' ← try_gc_empty_unit t' u
  some (merge_jobs, t'', h')

unfoldable pub reshuffle_units :
    Units → List UnitId → JobUnitTable → Heap → Option (List ℕ × JobUnitTable × Heap)
reshuffle_units us [] t h = some ([], t, h)
reshuffle_units us (u ∷ rest) t h = do
  (merge_jobs, t', h') ← reshuffle_one us t u (get t.t_data u) h
  (later, t'', h'') ← reshuffle_units us rest t' h'
  some (merge_jobs ++ later, t'', h'')

unfoldable pub reshuffle_table : Units → JobUnitTable → Heap → Option (List ℕ × JobUnitTable × Heap)
reshuffle_table us t h = do
  (merge_jobs, t', h') ← reshuffle_units us (keys t.t_data) t h
  some (merge_jobs, record t' { sync = true }, h')

abbrev pub finish_at :
    JobUnitTable
    → UnitId
    → Option JobUnit
    → JobResult
    → Heap
    → Option (Option ℕ × JobUnitTable × Heap)
finish_at t unit none result h = none
finish_at t unit (some uv) result h = do
  assert (is_some uv.trigger)
  (del_trigger, t', h') ← finish_entry t unit uv result h
  t'' ← try_gc_empty_unit t' unit
  some (del_trigger, t'', h')

unfoldable pub finish_trigger_uv :
    JobUnitTable → UnitId → JobResult → Heap → Option (Option ℕ × JobUnitTable × Heap)
finish_trigger_uv t unit result h = do assert t.sync; finish_at t unit (get t.t_data unit) result h

abbrev pub remove_at :
    Units
    → JobUnitTable
    → UnitId
    → Option JobUnit
    → JobKind
    → Option JobKind
    → JobResult
    → Heap
    → Option (List ℕ × JobUnitTable × Heap)
remove_at us t unit none kind1 kind2 result h = some ([], t, h)
remove_at us t unit (some uv) kind1 kind2 result h = do
  (del_jobs, t', h') ← remove_entry_uv us t unit uv kind1 kind2 result h
  t'' ← try_gc_empty_unit t' unit
  some (del_jobs, t'', h')

unfoldable pub remove_suspends_uv :
    Units
    → JobUnitTable
    → UnitId
    → JobKind
    → Option JobKind
    → JobResult
    → Heap
    → Option (List ℕ × JobUnitTable × Heap)
remove_suspends_uv us t unit kind1 kind2 result h = do
  assert t.sync
  remove_at us t unit (get t.t_data unit) kind1 kind2 result h

abbrev pub resume_at : JobUnitTable → UnitId → Option JobUnit → Option JobUnitTable
resume_at t unit none = some t
resume_at t unit (some uv) = resume_entry t unit uv

unfoldable pub resume_unit_uv : JobUnitTable → UnitId → Option JobUnitTable
resume_unit_uv t unit = resume_at t unit (get t.t_data unit)

-- `JobUnitTable::isolate_suspends`. The configuration `IgnoreOnIsolate` is a parameter.
abbrev pub isolate_one :
    (UnitId → Bool)
    → JobUnitTable
    → JobUnitTable
    → UnitId
    → Option JobUnit
    → Heap
    → Option (List ℕ × JobUnitTable × Heap)
isolate_one ignored t other unit none h = none
isolate_one ignored t other unit (some uv) h =
    if ignored unit
    then some ([], t, h)
    else if is_some (get other.t_data unit)
    then some ([], t, h)
    else (flush_suspends uv h >>= λ (del_jobs, uv', h').
        assert uv'.dirty >> some (del_jobs, put_uv t unit uv', h'))

unfoldable pub isolate_units :
    (UnitId → Bool)
    → JobUnitTable
    → List UnitId
    → JobUnitTable
    → Heap
    → Option (List ℕ × JobUnitTable × Heap)
isolate_units ignored other [] t h = some ([], t, h)
isolate_units ignored other (u ∷ rest) t h = do
  (del_jobs, t', h') ← isolate_one ignored t other u (get t.t_data u) h
  (later, t'', h'') ← isolate_units ignored other rest t' h'
  some (del_jobs ++ later, t'', h'')

unfoldable pub isolate_suspends_uv :
    (UnitId → Bool) → JobUnitTable → JobUnitTable → Heap → Option (List ℕ × JobUnitTable × Heap)
isolate_suspends_uv ignored t other h = do
  (del_jobs, t', h') ← isolate_units ignored other (keys t.t_data) t h
  some (del_jobs, record t' { sync = false }, h')

-- The jobs added, deleted and updated, and the new state.
pub record Merged : Type 0 where
  pub table : JobUnitTable
  pub heap : Heap
  pub adds : List ℕ
  pub dels : List ℕ
  pub updates : List ℕ

unfoldable pub merge_units : HashMap UnitId JobUnit → Merged → Option Merged
merge_units [] s = some s
merge_units ((unit, o_uv) ∷ rest) s = do
  (dels, m) ← merge_suspends (uv_pad s.table unit) o_uv s.heap
  merge_units rest (record {
    table = put_uv s.table unit m.own;
    heap = m.heap;
    adds = s.adds ++ m.add_jobs;
    dels = s.dels ++ dels;
    updates = s.updates ++ m.update_jobs;
  })

unfoldable pub merge_suspends_uv : JobUnitTable → JobUnitTable → Heap → Option Merged
merge_suspends_uv t other h = do
  s ← merge_units other.t_data (record { table = t; heap = h; adds = []; dels = []; updates = [] })
  some (record s { table = record s.table { sync = false } })
