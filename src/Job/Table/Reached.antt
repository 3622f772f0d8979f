-- ===== src/Job/Table/Reached.antt =====
-- core/bin/job/table.rs: a table under any sequence of its operations.
use sysmaster.Base.{
  ℕ, Bool, true, false, not, ◌≡◌, ◌↔◌, refl, subst, List, Option, none, some, get, get-insert,
  contains, string_eq, arith, bind-some, assert,
}
use sysmaster.Unit.Deps.{DepTable}
use sysmaster.Job.Rentry.{UnitId}
use sysmaster.Job.Kind.{JobKind, JobResult}
use sysmaster.Job.Entry.{Units}
use sysmaster.Job.Heap.{Heap}
use sysmaster.Job.Junit.{JobUnit, is_empty}
use sysmaster.Job.Table.{JobUnitTable, new_unit_table}
use sysmaster.Job.Table.Ready.{
  ready_pop, calc_table_ready, update_up_ready, clear_table, remove_unit_uv,
}
use sysmaster.Job.Table.Queue.{IsQueued, marked_up}
use sysmaster.Job.Table.Popped.{ready_pop_lem, PopAnswer, IsPopped}
use sysmaster.Job.Table.Units.{insert_suspend_uv, insert_trigger_uv}
use sysmaster.Job.Table.Entries.{
  Merged, merge_suspends_uv, isolate_suspends_uv, reshuffle_table, finish_trigger_uv,
  remove_suspends_uv, resume_unit_uv,
}
use sysmaster.Job.Table.Runnable.{
  Triggered, try_trigger_entry, trigger_popped, trigger_answer, do_try_trigger,
}
use sysmaster.Job.Table.Synced.{IsSynced, reshuffle_table-IsSynced, calc_table_ready_lem}
use sysmaster.Job.Table.Consistent.{
  IsConsistent, insert_suspend_uv-IsConsistent, insert_trigger_uv-IsConsistent,
  merge_suspends_uv-IsConsistent, isolate_suspends_uv-IsConsistent,
}
use sysmaster.Job.Table.Finishing.{
  finish_trigger_uv-IsConsistent, remove_suspends_uv-IsConsistent, resume_unit_uv-IsConsistent,
}
use sysmaster.Job.Table.Tried.{popped-IsConsistent, try_trigger_entry-IsTried}
use sysmaster.Job.Table.Dropped.{
  new-IsConsistent, update_up_ready-IsConsistent, clear_table-IsConsistent,
  remove_unit_uv-IsConsistent,
}

trigger_popped-IsConsistent :
    (us : Units) (db : DepTable) (t t1 t' : JobUnitTable) (want : Option UnitId) (u : UnitId)
    (o : Option JobUnit) (h h' : Heap) (x : Triggered)
    → IsConsistent t
    → t.sync ≡ true
    → IsQueued t1
    → IsPopped t want u t1
    → get t1.t_data u ≡ o
    → trigger_popped us db t1 u o h ≡ some (x, t', h')
    → IsConsistent t'
trigger_popped-IsConsistent us db t t1 t' want u none h h' x k s q p g e = cc
trigger_popped-IsConsistent us db t t1 t' want u (some uv) h h' x k s q p g e =
    let ((r, w, h1), a, e1) = bind-some (try_trigger_entry us db t1 uv h) _ _ e in
    let (y, a1, e2) = bind-some (assert (not (is_empty w))) _ _ e1 in
    let m = try_trigger_entry-IsTried us db t1 uv w h h1 r a in
    let low : uv.up_ready ≡ false =
      ground (
        arith,
        g,
        p.t_data,
        get-insert t.t_data u (marked_up p.uv false) u,
        string_eq.beq_iff u u,
      ) in
    subst IsConsistent (ground (arith, e2))
      (popped-IsConsistent t t1 want u w k s q p (ground (arith, m.up, low)) m.calm m.clean)

answer-IsConsistent :
    (us : Units) (db : DepTable) (t t1 t' : JobUnitTable) (want o : Option UnitId) (h h' : Heap)
    (x : Option Triggered)
    → IsConsistent t
    → t.sync ≡ true
    → IsQueued t1
    → PopAnswer t want o t1
    → trigger_answer us db o t1 h ≡ some (x, t', h')
    → IsConsistent t'
answer-IsConsistent us db t t1 t' want none h h' x k s q (d, n) e =
    subst IsConsistent (ground (arith, e)) (record {
      opened = record {
        queue = q;
        known = λ u uv f c. k.opened.known u uv (ground (arith, f, d)) c;
      };
      clean = λ u uv f c. k.clean u uv (ground (arith, f, d)) s;
    })
answer-IsConsistent us db t t1 t' want (some u) h h' x k s q p e =
    let ((r, t2, h2), a, e1) = bind-some (trigger_popped us db t1 u (get t1.t_data u) h) _ _ e in
    subst IsConsistent (ground (arith, e1))
      (trigger_popped-IsConsistent us db t t1 t2 want u (get t1.t_data u) h h2 r k s q p refl a)

do_try_trigger-IsConsistent :
    (us : Units) (db : DepTable) (t t' : JobUnitTable) (want : Option UnitId) (h h' : Heap)
    (x : Option Triggered)
    → IsConsistent t
    → do_try_trigger us db t want h ≡ some (x, t', h')
    → IsConsistent t'
unfolding do_try_trigger
do_try_trigger-IsConsistent us db t t' want h h' x k e =
    let (y, s, e1) = bind-some (assert t.sync) _ _ e in
    let ((o, t1), a, e2) = bind-some (ready_pop t want) _ _ e1 in
    let (o1, t2, a1, q, p) = ready_pop_lem t want k.opened.queue in
    answer-IsConsistent us db t t2 t' want o1 h h' x k (ground (arith, s)) q p
      (ground (arith, a, a1, e2))

-- The tables that the operations make, each from the one before and with any arguments, as long as
-- they do not panic and no unit is removed while it stands on the stack `readys`, where `remove_unit`
-- leaves it.
pub data TableReach : JobUnitTable → Type 0 where
  fresh_table : TableReach new_unit_table
  suspended :
      (t t' : JobUnitTable) (r : ℕ) (h h' : Heap)
      → TableReach t
      → insert_suspend_uv t r h ≡ some (t', h')
      → TableReach t'
  triggering :
      (t t' : JobUnitTable) (r : ℕ) (h : Heap)
      → TableReach t
      → insert_trigger_uv t r h ≡ some t'
      → TableReach t'
  merging :
      (t o : JobUnitTable) (h : Heap) (s : Merged)
      → TableReach t
      → merge_suspends_uv t o h ≡ some s
      → TableReach s.table
  isolating :
      (ig : UnitId → Bool) (t t' o : JobUnitTable) (h h' : Heap) (l : List ℕ)
      → TableReach t
      → isolate_suspends_uv ig t o h ≡ some (l, t', h')
      → TableReach t'
  reshuffled :
      (us : Units) (t t' : JobUnitTable) (h h' : Heap) (l : List ℕ)
      → TableReach t
      → reshuffle_table us t h ≡ some (l, t', h')
      → TableReach t'
  finished :
      (t t' : JobUnitTable) (u : UnitId) (res : JobResult) (h h' : Heap) (r : Option ℕ)
      → TableReach t
      → finish_trigger_uv t u res h ≡ some (r, t', h')
      → TableReach t'
  removed :
      (us : Units) (t t' : JobUnitTable) (u : UnitId) (k1 : JobKind) (k2 : Option JobKind)
      (res : JobResult) (h h' : Heap) (l : List ℕ)
      → TableReach t
      → remove_suspends_uv us t u k1 k2 res h ≡ some (l, t', h')
      → TableReach t'
  resumed :
      (t t' : JobUnitTable) (u : UnitId)
      → TableReach t
      → resume_unit_uv t u ≡ some t'
      → TableReach t'
  tried :
      (us : Units) (db : DepTable) (t t' : JobUnitTable) (want : Option UnitId) (h h' : Heap)
      (x : Option Triggered)
      → TableReach t
      → do_try_trigger us db t want h ≡ some (x, t', h')
      → TableReach t'
  updated : (t : JobUnitTable) → TableReach t → TableReach (update_up_ready t)
  cleared : (t : JobUnitTable) → TableReach t → TableReach (clear_table t)
  unit_removed :
      (t : JobUnitTable) (u : UnitId)
      → TableReach t
      → contains t.readys u ≡ false
      → TableReach (remove_unit_uv t u)

synced-IsConsistent : (t : JobUnitTable) → IsSynced t → IsConsistent t
synced-IsConsistent t s = record {
  opened = record { queue = s.queue; known = λ u uv e d. (s.in_step u uv e).marked };
  clean = λ u uv e c. (s.in_step u uv e).clean;
}

-- In every table that the operations reach without a panic, where `remove_unit` is called only for units
-- that are not on the stack `readys`: what stands in the queue are the units that are marked for it,
-- none twice; a clean unit is marked exactly if it is ready; and while the table is marked as in step,
-- every unit is clean.
pub TableReach-IsConsistent : (t : JobUnitTable) → TableReach t → IsConsistent t
TableReach-IsConsistent _ fresh_table = new-IsConsistent
TableReach-IsConsistent _ (suspended t t' r h h' p e) =
    insert_suspend_uv-IsConsistent t t' r h h' (TableReach-IsConsistent t p).opened e
TableReach-IsConsistent _ (triggering t t' r h p e) =
    insert_trigger_uv-IsConsistent t t' r h (TableReach-IsConsistent t p).opened e
TableReach-IsConsistent _ (merging t o h s p e) =
    merge_suspends_uv-IsConsistent t o h s (TableReach-IsConsistent t p).opened e
TableReach-IsConsistent _ (isolating ig t t' o h h' l p e) =
    isolate_suspends_uv-IsConsistent ig t t' o h h' l (TableReach-IsConsistent t p).opened e
TableReach-IsConsistent _ (reshuffled us t t' h h' l p e) =
    synced-IsConsistent t'
      (reshuffle_table-IsSynced us t t' h h' l (TableReach-IsConsistent t p).opened e)
TableReach-IsConsistent _ (finished t t' u res h h' r p e) =
    finish_trigger_uv-IsConsistent t t' u res h h' r (TableReach-IsConsistent t p) e
TableReach-IsConsistent _ (removed us t t' u k1 k2 res h h' l p e) =
    remove_suspends_uv-IsConsistent us t t' u k1 k2 res h h' l (TableReach-IsConsistent t p) e
TableReach-IsConsistent _ (resumed t t' u p e) =
    resume_unit_uv-IsConsistent t t' u (TableReach-IsConsistent t p) e
TableReach-IsConsistent _ (tried us db t t' want h h' x p e) =
    do_try_trigger-IsConsistent us db t t' want h h' x (TableReach-IsConsistent t p) e
TableReach-IsConsistent _ (updated t p) =
    update_up_ready-IsConsistent t (TableReach-IsConsistent t p)
TableReach-IsConsistent _ (cleared t p) = clear_table-IsConsistent t
TableReach-IsConsistent _ (unit_removed t u p off) =
    remove_unit_uv-IsConsistent t u off (TableReach-IsConsistent t p)

-- In every table that the operations reach without a panic, where `remove_unit` is called only for units
-- that are not on the stack `readys`, and that is marked as in step: the table is ready exactly if one
-- of its units is.
pub TableReach-calc_table_ready :
    (t : JobUnitTable)
    → TableReach t
    → t.sync ≡ true
    → (calc_table_ready t ≡ true)
      ↔ ((u : UnitId) × (uv : JobUnit) × (get t.t_data u ≡ some uv) × (uv.ready ≡ true))
TableReach-calc_table_ready t p s =
    let k = TableReach-IsConsistent t p in
    calc_table_ready_lem t (record {
      queue = k.opened.queue;
      sync = s;
      in_step = λ u uv e.
          let c = k.clean u uv e s in record { clean = c; marked = k.opened.known u uv e c };
    })
