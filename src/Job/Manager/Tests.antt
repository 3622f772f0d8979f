-- ===== src/Job/Manager/Tests.antt =====
-- core/bin/job/manager.rs: requests at two units, of which one requires the other.
use sysmaster.Base.{
  true, false, ◌≡◌, refl, List, [], ◌∷◌, some, get, ◌==◌, string_eq, nat_eq, arith,
}
use sysmaster.Unit.Deps.{gets_atom}
use sysmaster.Job.Kind.{start, stop, isolate, kind_eq, mode_eq, job_is_basic_op}
use sysmaster.Job.Rentry.{UnitId, JobRe, trigger_get}
use sysmaster.Job.Process.{job_merge_unit}
use sysmaster.Job.Alloc.{new_alloc}
use sysmaster.Job.Stat.{new_stat}
use sysmaster.Job.Samples.{busy_heap, running_re}
use sysmaster.Job.Table.Jobs.{new_table}
use sysmaster.Job.Transaction.{err_conflict, err_input}
use sysmaster.Job.Transaction.Pulls.{Ask, pulls, start_pulls}
use sysmaster.Job.Transaction.Closure.{all_closed, closed-AllAsked}
use sysmaster.Job.Transaction.Isolated.{IsIsolable}
use sysmaster.Job.Transaction.Tests.{two_units, all_pass}
use sysmaster.Job.Manager.{Manager, exec_err, exec, job_trans_check_input, rentry_trigger_merge}
use sysmaster.Job.Manager.Isolating.{exec_isolate_refused}
use sysmaster.Job.Manager.TriggerMerge.{is_basic_entry, entry_after, rentry_trigger_merge_lem}

abbrev idle : Manager
idle = record { jobs = new_table; ja = new_alloc; heap = busy_heap; stat = new_stat }

abbrev four_jobs : List Ask
four_jobs = ("a", start) ∷ ("b", start) ∷ ("a", stop) ∷ ("b", stop) ∷ []

four_closed : all_closed two_units isolate four_jobs four_jobs ≡ true
unfolding pulls start_pulls gets_atom get job_merge_unit
four_closed = refl

four-IsIsolable : IsIsolable two_units four_jobs
four-IsIsolable = record {
  stops = λ o c. ground (arith, c);
  closed = λ v j h. closed-AllAsked two_units isolate four_jobs v j four_closed h;
}

exec_isolate_example :
    (m' : Manager) × (exec two_units isolate 5 idle "a" start ≡ some (exec_err err_conflict m'))
    × (m'.jobs ≡ idle.jobs)
exec_isolate_example =
    exec_isolate_refused two_units four_jobs 5 idle "a" four-IsIsolable (omega arith) (omega arith)
      (λ v i h. all_pass v i) refl refl refl

isolate_stop_refused : exec two_units isolate 5 idle "a" stop ≡ some (exec_err err_input idle)
unfolding exec job_trans_check_input
isolate_stop_refused = refl

running_basic : is_basic_entry (trigger_get running_re "a") ≡ true
unfolding trigger_get get job_is_basic_op
running_basic = refl

rentry_trigger_merge_example :
    (re' : JobRe) × (rentry_trigger_merge running_re "a" true ≡ some re')
    × (trigger_get re' "a" ≡ some (entry_after true (trigger_get running_re "a")))
    × ((v : UnitId) → ("a" == v) ≡ false → trigger_get re' v ≡ trigger_get running_re v)
    × (re'.suspends ≡ running_re.suspends)
rentry_trigger_merge_example = rentry_trigger_merge_lem running_re "a" true running_basic
