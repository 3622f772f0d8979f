-- ===== src/Job/Ordered.antt =====
-- core/bin/job/entry.rs: the order of two jobs whose units are ordered, and a job's end as its unit
-- changes state.
use sysmaster.Base.{
  Bool, true, false, ◌≡◌, ◌≢◌, ◌⊎◌, ◌↔◌, Option, some, arith, is_positive, ℤ, neg, ◌||◌, string_eq,
}
use sysmaster.Unit.State.{
  UnitActiveState, unit_active, unit_in_active, unit_failed, UnitNotifyFlags, is_inactive_or_failed,
}
use sysmaster.Unit.Relation.AtomNames.{unit_atom_after, unit_atom_before, atom_eq}
use sysmaster.Job.Kind.{
  JobKind, start, stop, reload, nop, kind_eq, JobResult, done, failed, job_is_basic_op,
}
use sysmaster.Job.Rentry.{UnitId}
use sysmaster.Job.Entry.{Units, Job}
use sysmaster.Job.Process.{
  job_process_unit, job_process_unit_start, job_process_unit_stop, job_process_unit_reload,
  job_merge_unit, job_order_compare, job_order_before, is_order_with, stop_first,
}

-- Of two jobs whose units are ordered, the first after the second, neither a nop and neither ignoring
-- the order, exactly one waits for the other: the first for the second unless the first stops its
-- unit, and then the second for the first.
pub is_order_with_lem :
    (a b : Job)
    → (a.attr.ignore_order || b.attr.ignore_order) ≡ false
    → a.run_kind ≢ nop
    → b.run_kind ≢ nop
    → (x : ℤ) × (y : ℤ) × (is_order_with a b unit_atom_after ≡ some x)
      × (is_order_with b a unit_atom_before ≡ some y)
      × (y ≡ neg x)
      × ((is_positive x ≡ true) ↔ (a.run_kind ≢ stop))
      × ((is_positive y ≡ true) ↔ (a.run_kind ≡ stop))
unfolding is_order_with job_order_compare job_order_before
is_order_with_lem a b i na nb = (
  neg (stop_first a.run_kind),
  stop_first a.run_kind,
  ground (arith, kind_eq.beq_iff a.run_kind nop, kind_eq.beq_iff b.run_kind nop),
  ground (arith, kind_eq.beq_iff a.run_kind nop, kind_eq.beq_iff b.run_kind nop),
  ground arith,
  ground arith,
  ground arith,
)

-- What a kind of action asks of the state of its unit.
abbrev pub is_target : JobKind → UnitActiveState → Bool
is_target stop s = is_inactive_or_failed s
is_target _ unit_active = true
is_target _ _ = false

abbrev ended_with : Option (Option JobResult × Bool) → JobResult
ended_with (some (some r, own)) = r
ended_with _ = done

-- A change of a unit to active, inactive or failed ends the job that runs there, whichever of start,
-- stop and reload it does, as done or failed. It is taken as the job's own doing exactly if the state
-- is the one that the job asks for, and then a start or a stop is done.
pub job_process_unit_lem :
    (k : JobKind) (s : UnitActiveState) (flags : UnitNotifyFlags)
    → (k ≡ start) ⊎ (k ≡ stop) ⊎ (k ≡ reload)
    → (s ≡ unit_active) ⊎ (s ≡ unit_in_active) ⊎ (s ≡ unit_failed)
    → (r : JobResult) × (job_process_unit k s flags ≡ some (some r, is_target k s))
      × ((r ≡ done) ⊎ (r ≡ failed))
      × (k ≢ reload → is_target k s ≡ true → r ≡ done)
unfolding job_process_unit job_process_unit_start job_process_unit_stop job_process_unit_reload
job_process_unit_lem k s flags a b =
    (ended_with (job_process_unit k s flags), ground arith, ground arith, ground arith)

-- Whatever the state of the unit, merging a kind with it gives a basic kind, keeps exactly the kinds
-- that are basic, and gives the same when it is repeated.
pub job_merge_unit_lem :
    (u : Units) (k : JobKind) (unit : UnitId)
    → (job_is_basic_op (job_merge_unit u k unit) ≡ true)
      × ((job_merge_unit u k unit ≡ k) ↔ (job_is_basic_op k ≡ true))
      × (job_merge_unit u (job_merge_unit u k unit) unit ≡ job_merge_unit u k unit)
unfolding job_merge_unit job_is_basic_op
job_merge_unit_lem u k unit = ground arith
