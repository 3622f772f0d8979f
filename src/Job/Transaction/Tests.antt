-- ===== src/Job/Transaction/Tests.antt =====
-- core/bin/job/transaction.rs and table.rs: the theorems at two units, of which one requires the other.
use sysmaster.Base.{
  ℕ, true, false, ◌≡◌, ◌⊎◌, ◌↔◌, refl, List, [], ◌∷◌, none, some, get, contains_key, string_eq,
  nat_eq, if◌then◌else◌, arith, remove, insert, set_remove,
}
use sysmaster.Unit.Relation.Names.{unit_requires, unit_requires_by}
use sysmaster.Unit.Deps.{DepTable, gets_atom, gets}
use sysmaster.Job.Kind.{JobKind, start, stop, replace, fail, kind_eq, dependency, wait}
use sysmaster.Job.Rentry.{UnitId, suspends_remove, trigger_remove}
use sysmaster.Job.Process.{job_is_unit_applicable, job_merge_unit}
use sysmaster.Job.Alloc.{new_alloc}
use sysmaster.Job.Junit.{JobUnit}
use sysmaster.Job.Junit as Junit
use sysmaster.Job.Samples.{willing, busy_heap, busy_unit, offered_unit, job_of}
use sysmaster.Job.Table.{new_unit_table}
use sysmaster.Job.Table.Jobs.{
  JobTable, Stage, new_table, remove_suspends, finish_trigger_job, process_relation, remove_ids,
  resume_all,
}
use sysmaster.Job.Table.Units.{is_suspends_conflict_uv, any_conflict, get_suspend, get_trigger_info}
use sysmaster.Job.Transaction.{
  TransDb, Answer, ok, err, err_conflict, loaded, trans_expand_check_input, job_trans_expand,
  job_trans_verify,
}
use sysmaster.Job.Transaction.Recorded.{staged, IsStage}
use sysmaster.Job.Transaction.Pulls.{Ask, Pulled, pulls, start_pulls}
use sysmaster.Job.Transaction.Grown.{has}
use sysmaster.Job.Transaction.Closure.{
  IsBounded, job_trans_expand_lem, job_trans_expand_closure, all_closed-Pulled,
}
use sysmaster.Job.Transaction.Verified.{accepts, job_trans_verify_lem}
use sysmaster.Job.Table.Tests.{ordered_table}
use sysmaster.Job.Transaction.Fallback.{
  Fallen, Fallback, trans_fallback_body, trans_fallback_action, trans_fallback_start,
  trans_fallback, fallback_trigger, fallback_suspends, fallback_each,
}
use sysmaster.Job.Table.Entries.{
  remove_suspends_uv, remove_entry_uv, reshuffle_entry, clear_dirty, finish_entry,
  finish_trigger_uv, resume_entry, resume_unit_uv,
}
use sysmaster.Job.Junit.Suspends.{remove_suspend}
use sysmaster.Job.Heap.{finish_ref, finish_all, write}
use sysmaster.Job.Junit.Reshuffle.{
  reshuffle, jobs_merge_suspend, jobs_merge_trigger_prepare, jobs_ms_start_and_reload,
  jobs_ms_start_or_reload, jobs_suspends_remove, reorder, sq_order, sq_order_pushback,
}
use sysmaster.Job.Entry.{finish_job, job_rkind_map, update_runkind}
use sysmaster.Job.Junit.Trigger.{finish_trigger, resume_unit, retrigger_trigger}
use sysmaster.Job.Table.Ready.{
  btree_insert, btree_place, insert_readys, ready_insert, ready_remove, ready_sync, readys_backfill,
  try_gc_empty_unit,
}
use sysmaster.Unit.Relation.FromAtom.{unit_relation_from_unique_atom}

-- "a" requires "b".
abbrev chain : DepTable
chain = ("a", (unit_requires, ("b", record { source = 1; dest = 1 }) ∷ []) ∷ []) ∷ []

abbrev pub two_units : TransDb
two_units = record {
  deps = chain;
  units = willing;
  load_state = λ u. loaded;
  ignore_on_isolate = λ u. false;
  all_units = "a" ∷ "b" ∷ [];
}

abbrev empty_stage : Stage
empty_stage = record { table = new_table; ja = new_alloc; heap = busy_heap }

abbrev both_starts : List Ask
both_starts = ("a", start) ∷ ("b", start) ∷ []

both-Pulled :
    (v : UnitId) (j : JobKind) → Pulled two_units replace "a" start v j → has both_starts v j ≡ true
unfolding pulls start_pulls gets_atom get job_merge_unit
both-Pulled = all_closed-Pulled two_units replace "a" start both_starts refl refl

empty-IsStage : IsStage empty_stage
unfolding get
empty-IsStage = record { calm = λ u uv e. cc; ids = λ id c. refl }

empty-IsBounded : IsBounded two_units replace "a" start both_starts empty_stage
empty-IsBounded = record { listed = both-Pulled; room = omega arith }

pub all_pass : (v : UnitId) (i : JobKind) → trans_expand_check_input two_units v i ≡ ok
unfolding trans_expand_check_input job_is_unit_applicable
all_pass v stop = refl
all_pass v i = ground arith

nothing_staged : (v : UnitId) (j : JobKind) → staged empty_stage v j ≡ false
unfolding get_suspend get
nothing_staged v j = refl

job_trans_expand_example :
    (a : Answer) × (s' : Stage) × (job_trans_expand two_units replace 3 empty_stage "a" start
      ≡ some (a, s'))
    × IsStage s'
    × ((v : UnitId) (j : JobKind) → staged empty_stage v j ≡ true → staged s' v j ≡ true)
    × ((v : UnitId) (j : JobKind)
        → staged s' v j ≡ true
        → (staged empty_stage v j ≡ true) ⊎ Pulled two_units replace "a" start v j)
job_trans_expand_example =
    job_trans_expand_lem two_units replace 3 empty_stage "a" start both_starts empty-IsStage
      empty-IsBounded (omega arith)

expand_closure_example :
    (s' : Stage) × (job_trans_expand two_units replace 3 empty_stage "a" start ≡ some (ok, s'))
    × ((v : UnitId) (j : JobKind) → (staged s' v j ≡ true) ↔ Pulled two_units replace "a" start v j)
expand_closure_example =
    job_trans_expand_closure two_units replace 3 empty_stage "a" start both_starts empty-IsStage
      nothing_staged empty-IsBounded (omega arith) (λ v i p. all_pass v i)

-- A stage with a start of "a".
abbrev started_unit : JobUnit
started_unit = record offered_unit { suspends = (start, 3) ∷ [] }

abbrev table_of : UnitId → JobUnit → ℕ → JobTable
table_of unit uv r = record {
  t_id = (r, r) ∷ [];
  t_unit = record new_unit_table { t_data = (unit, uv) ∷ []; sync = false };
}

abbrev started_stage : Stage
started_stage = record {
  table = table_of "a" started_unit 3;
  ja = record { ids = 3 ∷ []; last_id = 3 };
  heap = busy_heap;
}

-- The jobs have a stop of "a" that waits, which the stage would replace.
abbrev stopping : JobTable
stopping = table_of "a" busy_unit 2

stopping_calm : is_suspends_conflict_uv stopping.t_unit ≡ false
unfolding is_suspends_conflict_uv any_conflict Junit.is_suspends_conflict Junit.suspends_kind_len
    Junit.num_others contains_key get
stopping_calm = refl

job_trans_verify_example :
    job_trans_verify started_stage.table stopping fail busy_heap
    ≡ some (if accepts started_stage.table stopping fail busy_heap then ok else err err_conflict)
job_trans_verify_example =
    job_trans_verify_lem started_stage.table stopping fail busy_heap stopping_calm

-- A start of "a" is ready, and the start of "b", which "a" requires, fails.
abbrev required : DepTable
required = ("b", (unit_requires_by, ("a", record { source = 1; dest = 1 }) ∷ []) ∷ []) ∷ []

abbrev ordered_jobs : Fallen
ordered_jobs = record {
  table = record { t_id = (3, 3) ∷ []; t_unit = ordered_table };
  heap = record busy_heap { job = λ r. job_of 3 start wait };
  told = [];
}

abbrev fallen_of : Fallback → Fallen
fallen_of none = ordered_jobs
fallen_of (some (dels, s)) = s

abbrev fallen_jobs : Fallen
fallen_jobs = fallen_of (trans_fallback_body 3 willing required dependency "b" start ordered_jobs)

start_taken_back :
    trans_fallback_body 3 willing required dependency "b" start ordered_jobs
    ≡ some (3 ∷ [], fallen_jobs)
unfolding trans_fallback_body trans_fallback_action trans_fallback_start trans_fallback gets_atom
    get fallback_trigger get_trigger_info fallback_suspends remove_suspends remove_suspends_uv
    remove_entry_uv remove_suspend Junit.update_ready finish_ref remove reshuffle_entry reshuffle
    Junit.is_suspends_conflict contains_key insert set_remove finish_job job_rkind_map
    update_runkind finish_all write jobs_merge_suspend jobs_merge_trigger_prepare
    jobs_ms_start_and_reload jobs_ms_start_or_reload jobs_suspends_remove reorder sq_order
    sq_order_pushback finish_trigger resume_unit retrigger_trigger Junit.calc_natural_ready
    Junit.calc_natural_ready_s Junit.calc_natural_ready_t Junit.calc_natural_ready_ts
    Junit.calc_ready Junit.is_empty Junit.num_others Junit.suspends_kind_len suspends_remove
    trigger_remove clear_dirty finish_entry finish_trigger_uv resume_entry resume_unit_uv
    finish_trigger_job process_relation remove_ids resume_all btree_insert btree_place insert_readys
    ready_insert ready_remove ready_sync readys_backfill try_gc_empty_unit fallback_each gets
    unit_relation_from_unique_atom
start_taken_back = refl
