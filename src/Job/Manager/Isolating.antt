-- ===== src/Job/Manager/Isolating.antt =====
-- core/bin/job/manager.rs: requests with the mode `Isolate`.
use sysmaster.Base.{
  ℕ, ◌+◌, ◌<◌, true, false, ◌≡◌, refl, List, [], ◌∷◌, length, some, contains, get, string_eq, arith,
}
use sysmaster.Job.Kind.{start, kind_eq, isolate}
use sysmaster.Job.Rentry.{UnitId}
use sysmaster.Job.Process.{job_merge_unit}
use sysmaster.Job.Table.Jobs.{Stage}
use sysmaster.Job.Transaction.{
  TransDb, ok, err, err_conflict, job_trans_expand, job_trans_affect, job_trans_verify,
}
use sysmaster.Job.Transaction.Recorded.{IsStage}
use sysmaster.Job.Transaction.Pulls.{Ask}
use sysmaster.Job.Transaction.Grown.{has, missing-length, AllPass, Grows}
use sysmaster.Job.Transaction.Checked.{expand_grows}
use sysmaster.Job.Transaction.Isolated.{IsIsolable, InList, isolate_start_conflicts}
use sysmaster.Job.Manager.{Manager, fresh_stage, job_trans_check_input, exec, exec_err, left}

fresh-IsStage : (m : Manager) → IsStage (fresh_stage m)
unfolding get
fresh-IsStage m = record { calm = λ u uv e. cc; ids = λ id c. refl }

expand-start :
    (db : TransDb) (us : List Ask) (fuel : ℕ) (m : Manager) (u : UnitId)
    → IsIsolable db us
    → length us < fuel
    → length m.ja.ids + length us < 4294967296
    → has us u start ≡ true
    → Grows db isolate us
        (InList us)
        (job_trans_expand db isolate fuel (fresh_stage m) u start)
        (fresh_stage m)
        ((u, start) ∷ [])
unfolding job_merge_unit
expand-start db us fuel m u iso f room h =
    expand_grows db isolate us (InList us) fuel
      (record { listed = λ v j e. e; closed = iso.closed }) (fresh_stage m) u start
      (record {
        stage = fresh-IsStage m;
        room = omega (arith, room, missing-length us (fresh_stage m));
      })
      (omega (arith, f, missing-length us (fresh_stage m))) h

exec_steps :
    (db : TransDb) (fuel : ℕ) (m : Manager) (u : UnitId) (s1 s2 : Stage)
    → job_trans_expand db isolate fuel (fresh_stage m) u start ≡ some (ok, s1)
    → job_trans_affect db isolate fuel u start s1 ≡ some (ok, s2)
    → job_trans_verify s2.table m.jobs isolate s2.heap ≡ some (err err_conflict)
    → exec db isolate fuel m u start ≡ some (exec_err err_conflict (left m s2))
unfolding exec job_trans_check_input
exec_steps db fuel m u s1 s2 e a v = rw e (rw a (rw v refl))

-- Let a finite list hold the start of a unit, the stops of all units, and all that these lead to, let
-- every check pass, and let there be ids for as many jobs. Then a request to start the unit and
-- isolate it is refused with `Conflict`, whatever the jobs are, unless the unit is one that
-- isolating spares. The jobs stay as they were.
pub exec_isolate_refused :
    (db : TransDb) (us : List Ask) (fuel : ℕ) (m : Manager) (u : UnitId)
    → IsIsolable db us
    → length us < fuel
    → length m.ja.ids + length us < 4294967296
    → AllPass db (InList us)
    → has us u start ≡ true
    → contains db.all_units u ≡ true
    → db.ignore_on_isolate u ≡ false
    → (m' : Manager) × (exec db isolate fuel m u start ≡ some (exec_err err_conflict m'))
      × (m'.jobs ≡ m.jobs)
unfolding job_merge_unit
exec_isolate_refused db us fuel m u iso f room pass h c free =
    let (a, s1, e, g, p) = expand-start db us fuel m u iso f room h in
    let e' : job_trans_expand db isolate fuel (fresh_stage m) u start ≡ some (ok, s1) =
      ground (arith, e, (p pass).0) in
    let (s2, e2, x, v) =
      isolate_start_conflicts db us fuel u s1 m.jobs iso f pass g.good free c ((p pass).1.0) in
    (left m s2, exec_steps db fuel m u s1 s2 e' e2 v, refl)
