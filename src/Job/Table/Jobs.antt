-- ===== src/Job/Table/Jobs.antt =====
-- core/bin/job/table.rs: `JobTable`, the jobs by id and by unit.
use sysmaster.Base.{
  ℕ, ◌+◌, Bool, true, false, not, ◌||◌, List, [], ◌∷◌, ◌++◌, length, Option, none, some, HashMap,
  get, insert, remove, keys, is_some, is_none, ◌==◌, nat_eq, string_eq, assert, ◌>>=◌, ◌>>◌,
  if◌then◌else◌, set_insert,
}
use sysmaster.Unit.Relation.AtomNames.{unit_atom_after, unit_atom_before, unit_atom_triggered_by}
use sysmaster.Unit.Deps.{DepTable, gets_atom}
use sysmaster.Job.Kind.{JobKind, JobResult, JobMode, isolate, flush}
use sysmaster.Job.Rentry.{UnitId}
use sysmaster.Job.Entry.{Units, new_job, init_attr}
use sysmaster.Job.Heap.{Heap, write}
use sysmaster.Job.Alloc.{JobAlloc, alloc_id}
use sysmaster.Job.Junit.{is_nil}
use sysmaster.Job.Table.{JobUnitTable, new_unit_table}
use sysmaster.Job.Table.Ready.{remove_unit_uv}
use sysmaster.Job.Table.Units.{
  insert_suspend_uv, insert_trigger_uv, get_suspend, get_suspends, get_trigger_info,
}
use sysmaster.Job.Table.Entries.{
  reshuffle_table, finish_trigger_uv, remove_suspends_uv, resume_unit_uv, isolate_suspends_uv,
  merge_suspends_uv, Merged,
}
use sysmaster.Job.Table.Runnable.{Triggered, do_try_trigger}

-- `t_id` holds the ids of the jobs, and each job's reference.
pub record JobTable : Type 0 where
  pub t_id : HashMap ℕ ℕ
  pub t_unit : JobUnitTable

abbrev pub new_table : JobTable
new_table = record { t_id = []; t_unit = new_unit_table }

-- `job.get_id()`, and the removal of jobs from the table of ids.
abbrev pub id_of : Heap → ℕ → ℕ
id_of h job = (h.job job).id

unfoldable pub remove_ids : HashMap ℕ ℕ → List ℕ → Heap → HashMap ℕ ℕ
remove_ids m [] h = m
remove_ids m (job ∷ jobs) h = remove_ids (remove m (id_of h job)) jobs h

unfoldable pub insert_ids : HashMap ℕ ℕ → List ℕ → Heap → HashMap ℕ ℕ
insert_ids m [] h = m
insert_ids m (job ∷ jobs) h = insert_ids (insert m (id_of h job) job) jobs h

-- What inserting a job answers: it is in, or an error. `Error::Input` is never reached: the record of
-- the unit panics before.
pub data InsertAnswer : Type 0 where
  inserted : JobTable → Heap → InsertAnswer
  insert_internal : InsertAnswer

unfoldable pub insert_suspend_job : JobTable → ℕ → Heap → Option InsertAnswer
insert_suspend_job t job h =
    if is_some (get t.t_id (id_of h job))
    then some insert_internal
    else (insert_suspend_uv t.t_unit job h >>= λ (u, h').
        some (inserted (record { t_id = insert t.t_id (id_of h job) job; t_unit = u }) h'))

unfoldable pub insert_trigger_job : JobTable → ℕ → Heap → Option InsertAnswer
insert_trigger_job t job h =
    if is_some (get t.t_id (id_of h job))
    then some insert_internal
    else (insert_trigger_uv t.t_unit job h >>= λ u.
        some (inserted (record { t_id = insert t.t_id (id_of h job) job; t_unit = u }) h))

-- `JobAlloc::alloc`: a new job with a new id, which is the reference to it. The fuel is one more than
-- the ids that are given away.
unfoldable pub alloc : JobAlloc → UnitId → JobKind → Heap → Option (ℕ × JobAlloc × Heap)
alloc ja unit kind h = do
  (id, ja') ← alloc_id (length ja.ids + 1) ja
  some (id, ja', write h id (new_job id unit kind) h.rentry)

-- The stage of a transaction: the table, the ids and the jobs.
pub record Stage : Type 0 where
  pub table : JobTable
  pub ja : JobAlloc
  pub heap : Heap

abbrev expect_inserted : JobAlloc → InsertAnswer → Option Stage
expect_inserted ja (inserted t h) = some (record { table = t; ja = ja; heap = h })
expect_inserted ja insert_internal = none

-- The branch of `record_suspend` that makes a job.
unfoldable pub record_new : Stage → UnitId → JobKind → JobMode → Option Stage
record_new s unit kind mode = do
  (job, ja, h) ← alloc s.ja unit kind s.heap
  j ← init_attr (h.job job) mode
  answer ← insert_suspend_job s.table job (write h job j h.rentry)
  expect_inserted ja answer

-- The result is whether the job is new.
unfoldable pub record_suspend : Stage → UnitId → JobKind → JobMode → Option (Bool × Stage)
record_suspend s unit kind mode =
    if is_none (get_suspend s.table.t_unit unit kind)
    then (record_new s unit kind mode >>= λ s'. some (true, s'))
    else some (false, s)

unfoldable pub reshuffle_jobs : Units → JobTable → Heap → Option (List ℕ × JobTable × Heap)
reshuffle_jobs us t h = do
  (merge_jobs, u, h') ← reshuffle_table us t.t_unit h
  some (merge_jobs, record { t_id = remove_ids t.t_id merge_jobs h'; t_unit = u }, h')

unfoldable pub resume_all : List UnitId → JobUnitTable → Option JobUnitTable
resume_all [] t = some t
resume_all (other ∷ others) t = do t' ← resume_unit_uv t other; resume_all others t'

-- The calls of `other.trigger(unit)` are an output: the units that are told.
unfoldable pub process_relation :
    DepTable → JobTable → UnitId → Bool → Option (List UnitId × JobTable)
process_relation db t unit st_deleted = do
  let told = if st_deleted then gets_atom db unit unit_atom_triggered_by else []
  u ← resume_all (gets_atom db unit unit_atom_after) t.t_unit
  u' ← resume_all (gets_atom db unit unit_atom_before) u
  some (told, record t { t_unit = u' })

unfoldable pub remove_suspends :
    Units
    → DepTable
    → JobTable
    → UnitId
    → JobKind
    → Option JobKind
    → JobResult
    → Heap
    → Option (List ℕ × List UnitId × JobTable × Heap)
remove_suspends us db t unit kind1 kind2 result h = do
  (del_jobs, u, h') ← remove_suspends_uv us t.t_unit unit kind1 kind2 result h
  let t' : JobTable = record { t_id = remove_ids t.t_id del_jobs h'; t_unit = u }
  (told, t'') ← if not (is_nil del_jobs) then process_relation db t' unit true else some ([], t')
  some (del_jobs, told, t'', h')

abbrev remove_id : HashMap ℕ ℕ → Option ℕ → Heap → HashMap ℕ ℕ
remove_id m none h = m
remove_id m (some job) h = remove m (id_of h job)

unfoldable pub finish_trigger_job :
    DepTable
    → JobTable
    → UnitId
    → JobResult
    → Heap
    → Option (Option ℕ × List UnitId × JobTable × Heap)
finish_trigger_job db t unit result h = do
  assert (is_some (get_trigger_info t.t_unit unit))
  (del_trigger, u, h') ← finish_trigger_uv t.t_unit unit result h
  (told, t') ←
      process_relation db (record { t_id = remove_id t.t_id del_trigger h'; t_unit = u }) unit
        (is_some del_trigger)
  some (del_trigger, told, t', h')

abbrev trigger_job : Option (ℕ × Bool) → Option ℕ
trigger_job none = none
trigger_job (some (job, pause)) = some job

-- `JobTable::remove_unit`: the jobs are not finished, they are only taken out of both tables.
unfoldable pub remove_unit_job : JobTable → UnitId → Heap → Option ℕ × List ℕ × JobTable
remove_unit_job t unit h =
    let del_trigger = trigger_job (get_trigger_info t.t_unit unit) in
    let del_suspends = get_suspends t.t_unit unit in
    (
      del_trigger,
      del_suspends,
      record {
        t_id = remove_ids (remove_id t.t_id del_trigger h) del_suspends h;
        t_unit = remove_unit_uv t.t_unit unit;
      },
    )

abbrev merged_of : Option Triggered → Option ℕ
merged_of none = none
merged_of (some (info, merge_trigger)) = merge_trigger

unfoldable pub try_trigger :
    Units → DepTable → JobTable → Option UnitId → Heap → Option (Option Triggered × JobTable × Heap)
try_trigger us db t unit h = do
  (ret, u, h') ← do_try_trigger us db t.t_unit unit h
  some (ret, record { t_id = remove_id t.t_id (merged_of ret) h'; t_unit = u }, h')

-- `JobInfo` of the job with an id.
abbrev is_trigger_of : Option ℕ → JobTable → Heap → Bool
is_trigger_of none t h = false
is_trigger_of (some job) t h = elim (get_trigger_info t.t_unit (h.job job).unit) [
  | none ↦ false
  | some (other, pause) ↦ id_of h other == id_of h job
]

unfoldable pub is_trigger_id : JobTable → ℕ → Heap → Bool
is_trigger_id t id h = is_trigger_of (get t.t_id id) t h

-- `commit`: is an id of the other table taken?
unfoldable pub any_taken : List ℕ → HashMap ℕ ℕ → Bool
any_taken [] m = false
any_taken (id ∷ ids) m = is_some (get m id) || any_taken ids m

abbrev is_isolating : JobMode → Bool
is_isolating isolate = true
is_isolating flush = true
is_isolating _ = false

unfoldable pub isolate_suspends :
    (UnitId → Bool) → JobTable → JobTable → JobMode → Heap → Option (List ℕ × JobTable × Heap)
isolate_suspends ignored t other mode h =
    (if is_isolating mode
      then isolate_suspends_uv ignored t.t_unit other.t_unit h
      else some ([], t.t_unit, h))
    >>= λ (del_jobs, u, h').
        some (del_jobs, record { t_id = remove_ids t.t_id del_jobs h'; t_unit = u }, h')

unfoldable pub merge_suspends_jobs : JobTable → JobTable → Heap → Option (Merged × JobTable)
merge_suspends_jobs t other h = do
  m ← merge_suspends_uv t.t_unit other.t_unit h
  some (
    m,
    record { t_id = remove_ids (insert_ids t.t_id m.adds m.heap) m.dels m.heap; t_unit = m.table },
  )

-- `jobs_2_units`: the units of jobs, each once.
unfoldable pub jobs_2_units : List ℕ → Heap → List UnitId
jobs_2_units [] h = []
jobs_2_units (job ∷ jobs) h = set_insert (jobs_2_units jobs h) (h.job job).unit

unfoldable pub process_units : DepTable → List UnitId → JobTable → Option (List UnitId × JobTable)
process_units db [] t = some ([], t)
process_units db (unit ∷ units) t = do
  (told, t') ← process_relation db t unit true
  (later, t'') ← process_units db units t'
  some (told ++ later, t'')

pub record Committed : Type 0 where
  pub jobs : JobTable
  pub heap : Heap
  pub adds : List ℕ
  pub dels : List ℕ
  pub updates : List ℕ
  pub told : List UnitId

-- The part of `commit` after the check of the ids.
unfoldable pub commit_all :
    Units → DepTable → (UnitId → Bool) → JobTable → JobTable → JobMode → Heap → Option Committed
commit_all us db ignored t other mode h = do
  (iso_jobs, t1, h1) ← isolate_suspends ignored t other mode h
  (m, t2) ← merge_suspends_jobs t1 other h1
  (merge_jobs, t3, h3) ← reshuffle_jobs us t2 m.heap
  (told1, t4) ← process_units db (jobs_2_units iso_jobs h3) t3
  (told2, t5) ← process_units db (jobs_2_units m.dels h3) t4
  some (record {
    jobs = t5;
    heap = h3;
    adds = m.adds;
    dels = iso_jobs ++ (m.dels ++ merge_jobs);
    updates = m.updates;
    told = told1 ++ told2;
  })

-- `Err(Error::Internal)`, or the jobs that were added, deleted and updated.
pub data CommitAnswer : Type 0 where
  committed : Committed → CommitAnswer
  commit_internal : CommitAnswer

unfoldable pub commit :
    Units → DepTable → (UnitId → Bool) → JobTable → JobTable → JobMode → Heap → Option CommitAnswer
commit us db ignored t other mode h =
    if any_taken (keys other.t_id) t.t_id
    then some commit_internal
    else (commit_all us db ignored t other mode h >>= λ c. some (committed c))
