-- ===== src/Job/Table/Tests.antt =====
-- core/bin/job/table.rs: the theorems at tables of one and two units.
use sysmaster.Base.{
  insert, contains_key, remove, set_remove, true, false, ◌≡◌, ◌↔◌, ◌⊎◌, refl, inl, inr, contains,
  [], ◌∷◌, Option, none, some, get, string_eq, nat_eq, arith,
}
use sysmaster.Job.Kind.{kind_eq, job_is_basic_op}
use sysmaster.Job.Rentry.{UnitId}
use sysmaster.Job.Junit.{
  JobUnit, new_unit, is_trigger, is_suspends_conflict, update_ready, calc_natural_ready,
  calc_natural_ready_s, calc_ready, is_empty, num_others, suspends_kind_len,
}
use sysmaster.Job.Junit.Reshuffle.{
  reshuffle, reorder, sq_order, jobs_merge_suspend, jobs_merge_trigger_prepare,
  jobs_ms_start_and_reload, jobs_ms_start_or_reload, jobs_suspends_remove, sq_order_pushback,
}
use sysmaster.Job.Heap.{finish_all}
use sysmaster.Job.Samples.{willing, busy_heap, busy_unit, offered_unit}
use sysmaster.Job.Table.{JobUnitTable, new_unit_table, uv_pad}
use sysmaster.Job.Table.Ready.{
  ready_pop, calc_table_ready, ready_sync, ready_insert, readys_backfill, try_gc_empty_unit,
  btree_insert, btree_place, insert_readys, ready_remove, remove_unit_uv,
}
use sysmaster.Job.Table.Queue.{IsQueued}
use sysmaster.Job.Table.Popped.{PopAnswer, ready_pop_lem}
use sysmaster.Job.Table.Entries.{reshuffle_table, reshuffle_units, reshuffle_entry, clear_dirty}
use sysmaster.Job.Table.Units.{insert_suspend_uv}
use sysmaster.Job.Junit.Suspends as Suspends
use sysmaster.Job.Table.Consistent.{IsConsistent}
use sysmaster.Job.Table.Reached.{
  TableReach, fresh_table, suspended, reshuffled, TableReach-IsConsistent,
  TableReach-calc_table_ready,
}
use sysmaster.Job.Table.Dropped.{remove_unit_uv_lem}

-- Two units in the queue, both in the tree.
abbrev queued_table : JobUnitTable
queued_table = record new_unit_table {
  t_data =
      ("a", record busy_unit { up_ready = true })
      ∷ ("b", record busy_unit { up_ready = true })
      ∷ [];
  t_ready = "a" ∷ "b" ∷ [];
}

two-IsQueued : IsQueued queued_table
unfolding get
two-IsQueued = record {
  marked = λ u. ground arith;
  once_tree = (refl, (refl, tt));
  once_stack = tt;
  split = inl refl;
}

ready_pop_example :
    (o : Option UnitId) × (t' : JobUnitTable) × (ready_pop queued_table none ≡ some (o, t'))
    × IsQueued t'
    × PopAnswer queued_table none o t'
ready_pop_example = ready_pop_lem queued_table none two-IsQueued

-- A unit with a start that has just been merged into the jobs.
abbrev merged_table : JobUnitTable
merged_table = record new_unit_table { t_data = ("a", offered_unit) ∷ []; sync = false }

-- And after the reshuffle.
abbrev ordered_unit : JobUnit
ordered_unit = record offered_unit {
  sq = 3 ∷ [];
  order = true;
  dirty = false;
  ready = true;
  up_ready = true;
}

abbrev pub ordered_table : JobUnitTable
ordered_table = record new_unit_table { t_data = ("a", ordered_unit) ∷ []; t_ready = "a" ∷ [] }

merged_reshuffled :
    reshuffle_table willing merged_table busy_heap ≡ some ([], ordered_table, busy_heap)
unfolding get insert contains_key remove set_remove reshuffle_table reshuffle_units reshuffle_entry
    clear_dirty reshuffle reorder sq_order jobs_merge_suspend jobs_merge_trigger_prepare
    jobs_ms_start_and_reload jobs_ms_start_or_reload jobs_suspends_remove sq_order_pushback
    is_suspends_conflict update_ready calc_natural_ready calc_natural_ready_s calc_ready is_empty
    num_others suspends_kind_len finish_all ready_sync ready_insert readys_backfill
    try_gc_empty_unit btree_insert btree_place insert_readys ready_remove
merged_reshuffled = refl

fresh_suspended : insert_suspend_uv new_unit_table 3 busy_heap ≡ some (merged_table, busy_heap)
unfolding insert_suspend_uv uv_pad new_unit get insert Suspends.insert_suspend update_ready
    calc_ready calc_natural_ready is_trigger job_is_basic_op
fresh_suspended = refl

pub ordered_reached : TableReach ordered_table
ordered_reached =
    reshuffled willing merged_table ordered_table busy_heap busy_heap []
      (suspended new_unit_table merged_table 3 busy_heap busy_heap fresh_table fresh_suspended)
      merged_reshuffled

IsConsistent_example : IsConsistent ordered_table
IsConsistent_example = TableReach-IsConsistent ordered_table ordered_reached

calc_table_ready_example :
    (calc_table_ready ordered_table ≡ true)
    ↔ ((u : UnitId) × (uv : JobUnit) × (get ordered_table.t_data u ≡ some uv) × (uv.ready ≡ true))
calc_table_ready_example = TableReach-calc_table_ready ordered_table ordered_reached refl

-- The unit on the stack of the queue, after the other units that were popped.
abbrev stacked_table : JobUnitTable
stacked_table = record ordered_table { t_ready = []; readys = "a" ∷ [] }

stacked-IsConsistent : IsConsistent stacked_table
unfolding get
stacked-IsConsistent = record {
  opened = record {
    queue = record {
      marked = λ u. ground arith;
      once_tree = tt;
      once_stack = (refl, tt);
      split = inr refl;
    };
    known = λ u uv e c. ground (arith, e);
  };
  clean = λ u uv e s. ground (arith, e);
}

remove_unit_uv_example :
    (IsConsistent (remove_unit_uv stacked_table "a") ↔ (contains stacked_table.readys "a" ≡ false))
    × ((contains stacked_table.readys "a" ≡ false)
        ⊎ (calc_table_ready (remove_unit_uv stacked_table "a") ≡ stacked_table.sync))
remove_unit_uv_example = remove_unit_uv_lem stacked_table "a" stacked-IsConsistent
