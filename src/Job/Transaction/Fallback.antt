-- ===== src/Job/Transaction/Fallback.antt =====
-- core/bin/job/transaction.rs: the jobs that are taken back after a failure. `none` is a panic or the
-- end of the fuel, which counts the recursive calls of `trans_fallback_body`.
use sysmaster.Base.{
  ℕ, zero, suc, Bool, ◌||◌, List, [], ◌∷◌, ◌++◌, Option, none, some, ◌==◌, ◌>>=◌, if◌then◌else◌,
}
use sysmaster.Unit.Relation.AtomNames.{
  unit_atom_propagate_start_failure, unit_atom_propagate_stop_failure,
}
use sysmaster.Unit.Deps.{DepTable, gets_atom}
use sysmaster.Job.Kind.{JobKind, start, stop, verify, kind_eq, JobResult}
use sysmaster.Job.Rentry.{UnitId}
use sysmaster.Job.Entry.{Units}
use sysmaster.Job.Heap.{Heap}
use sysmaster.Job.Table.Units.{get_trigger_info}
use sysmaster.Job.Table.Jobs.{JobTable, finish_trigger_job, remove_suspends}

-- The jobs, and the units whose `trigger` was called.
pub record Fallen : Type 0 where
  pub table : JobTable
  pub heap : Heap
  pub told : List UnitId

-- The jobs that were deleted.
abbrev pub Fallback : Type 0
Fallback = Option (List ℕ × Fallen)

abbrev pub some_job : Option ℕ → List ℕ
some_job none = []
some_job (some job) = job ∷ []

-- `trigger.run_kind == kind1 || trigger.run_kind == kind2`
abbrev pub is_starting : JobKind → Bool
is_starting kind = kind == start || kind == verify

unfoldable pub fallback_trigger :
    DepTable → JobResult → UnitId → Fallen → Option (ℕ × Bool) → Fallback
fallback_trigger db f_result other s none = some ([], s)
fallback_trigger db f_result other s (some (job, pause)) =
    if is_starting (s.heap.job job).run_kind
    then (finish_trigger_job db s.table other f_result s.heap >>= λ (del, told, t, h).
        some (some_job del, record { table = t; heap = h; told = s.told ++ told }))
    else some ([], s)

unfoldable pub fallback_suspends : Units → DepTable → JobResult → UnitId → Fallen → Fallback
fallback_suspends us db f_result other s = do
  (dels, told, t, h) ← remove_suspends us db s.table other start (some verify) f_result s.heap
  some (dels, record { table = t; heap = h; told = s.told ++ told })

-- The loop over the units that the failure of one reaches.
unfoldable pub trans_fallback : Units → DepTable → JobResult → List UnitId → Fallen → Fallback
trans_fallback us db f_result [] s = some ([], s)
trans_fallback us db f_result (other ∷ others) s = do
  (del_trigger, s1) ← fallback_trigger db f_result other s (get_trigger_info s.table.t_unit other)
  (del_suspends, s2) ← fallback_suspends us db f_result other s1
  (dels, s3) ← trans_fallback us db f_result others s2
  some (del_trigger ++ (del_suspends ++ dels), s3)

unfoldable pub trans_fallback_start : Units → DepTable → UnitId → JobResult → Fallen → Fallback
trans_fallback_start us db unit f_result s =
    trans_fallback us db f_result (gets_atom db unit unit_atom_propagate_start_failure) s

unfoldable pub trans_fallback_stop : Units → DepTable → UnitId → JobResult → Fallen → Fallback
trans_fallback_stop us db unit f_result s =
    trans_fallback us db f_result (gets_atom db unit unit_atom_propagate_stop_failure) s

unfoldable pub trans_fallback_action :
    Units → DepTable → UnitId → JobKind → JobResult → Fallen → Fallback
trans_fallback_action us db unit start f_result s = trans_fallback_start us db unit f_result s
trans_fallback_action us db unit stop f_result s = trans_fallback_stop us db unit f_result s
trans_fallback_action us db unit verify f_result s = trans_fallback_start us db unit f_result s
trans_fallback_action us db unit kind f_result s = some ([], s)

-- `for job in dels.iter() { trans_fallback_body(job.unit(), job.run_kind()) }`
unfoldable pub fallback_each : (UnitId → JobKind → Fallen → Fallback) → List ℕ → Fallen → Fallback
fallback_each rec [] s = some ([], s)
fallback_each rec (job ∷ jobs) s = do
  (dels, s1) ← rec (s.heap.job job).unit (s.heap.job job).run_kind s
  (more, s2) ← fallback_each rec jobs s1
  some (dels ++ more, s2)

-- The jobs that the deleted ones led to come before these.
unfoldable pub trans_fallback_body :
    ℕ → Units → DepTable → JobResult → UnitId → JobKind → Fallen → Fallback
trans_fallback_body zero us db f_result unit kind s = none
trans_fallback_body (suc fuel) us db f_result unit kind s = do
  (dels, s1) ← trans_fallback_action us db unit kind f_result s
  (more, s2) ← fallback_each (trans_fallback_body fuel us db f_result) dels s1
  some (more ++ dels, s2)
