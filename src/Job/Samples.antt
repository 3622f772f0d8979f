-- ===== src/Job/Samples.antt =====
-- core/bin/job: units and jobs to run the definitions on.
use sysmaster.Base.{
  ℕ, true, false, ◌≡◌, refl, none, some, [], ◌∷◌, HashMap, get, IsUnique, ◌==◌, nat_eq,
  if◌then◌else◌, arith, subst, insert, remove, string_eq,
}
use sysmaster.Unit.State.{unit_active}
use sysmaster.Job.Kind.{
  JobKind, start, stop, restart, kind_eq, JobAttr, JobStage, init, wait, running, job_is_basic_op,
}
use sysmaster.Job.Rentry.{
  JobRe, key_eq, suspends_get, suspends_insert, trigger_insert, suspends_remove,
}
use sysmaster.Job.Entry.{
  Units, Job, new_job, job_rkind_new, action_ok, triggered, wait_job, run_job, job_trigger_unit,
  call_unit,
}
use sysmaster.Job.Lifecycle.{JobReach, fresh, step, waits, runs}
use sysmaster.Job.Heap.{Heap}
use sysmaster.Job.Junit.{JobUnit}
use sysmaster.Job.Junit.Kept.{IsFiled, IsKept}
use sysmaster.Job.Junit.Merge.{IsOffered, AreOffered, HasRunning}

-- A unit that is active and does what it is asked.
abbrev pub willing : Units
willing = record {
  active_state = λ u. unit_active;
  get_perpetual = λ u. false;
  can_start = λ u. true;
  can_stop = λ u. true;
  can_reload = λ u. true;
  start_unit = λ u. action_ok;
  stop_unit = λ u f. action_ok;
  reload_unit = λ u. action_ok;
}

abbrev pub plain : JobAttr
plain = record { ignore_order = false; irreversible = false; force = false; no_relevancy = false }

abbrev pub job_of : ℕ → JobKind → JobStage → Job
job_of id kind stage = record {
  id = id;
  unit = "a";
  kind = kind;
  attr = plain;
  run_kind = kind;
  stage = stage;
}

-- A restart before its run, and at its first half.
abbrev pub restart_job : JobStage → Job
restart_job stage = record {
  id = 1;
  unit = "a";
  kind = restart;
  attr = plain;
  run_kind = stop;
  stage = stage;
}

abbrev pub empty_re : JobRe
empty_re = record { trigger = []; suspends = [] }

abbrev pub waiting_re : JobRe
waiting_re = record {
  trigger = [];
  suspends = (record { unit_id = "a"; kind = restart }, plain) ∷ [];
}

abbrev pub running_re : JobRe
running_re = record { trigger = ("a", record { kind = restart; attr = plain }) ∷ []; suspends = [] }

pub waiting_reached : JobReach (restart_job wait) waiting_re
unfolding new_job job_rkind_new suspends_get wait_job suspends_insert get insert job_is_basic_op
waiting_reached = step (fresh 1 "a" restart empty_re refl) (waits refl)

pub running_reached : JobReach (restart_job running) running_re
unfolding run_job job_trigger_unit call_unit suspends_remove trigger_insert insert remove
    job_is_basic_op
running_reached = step waiting_reached (runs willing triggered refl)

-- A restart runs at the unit, a stop waits, a start is on its way.
abbrev pub busy_heap : Heap
busy_heap = record {
  job = λ r.
      if r == 1
      then restart_job running
      else if r == 2
      then job_of 2 stop wait
      else job_of 3 start init;
  rentry = running_re;
}

abbrev pub busy_unit : JobUnit
busy_unit = record {
  unit = "a";
  suspends = (stop, 2) ∷ [];
  trigger = some 1;
  order = false;
  sq = [];
  interrupt = false;
  retrigger = false;
  dirty = true;
  pause = false;
  ready = false;
  up_ready = false;
}

-- The unit of a transaction, with a start.
abbrev pub offered_unit : JobUnit
offered_unit = record busy_unit { suspends = (start, 3) ∷ []; trigger = none }

one_entry :
    (m : HashMap JobKind ℕ) (j k : JobKind) (v w : ℕ)
    → m ≡ (j, v) ∷ []
    → get m k ≡ some w
    → (j ≡ k) × (v ≡ w)
unfolding get
one_entry m j k v w same e = ground (arith, kind_eq.beq_iff j k)

abbrev OneOf : (JobKind → ℕ → Type 0) → JobKind → ℕ → Type 0
OneOf P j v = (k : JobKind) (w : ℕ) → get ((j, v) ∷ []) k ≡ some w → P k w

one_all : (P : JobKind → ℕ → Type 0) (j : JobKind) (v : ℕ) → P j v → OneOf P j v
one_all P j v p k w e =
    let (a, b) = one_entry ((j, v) ∷ []) j k v w refl e in subst (λ x. P x w) a (subst (P j) b p)

pub busy-IsKept : IsKept busy_unit busy_heap
unfolding get job_is_basic_op
busy-IsKept = record {
  unique = (refl, tt);
  filed = one_all (IsFiled busy_heap) stop 2 (record { kind = refl; waits = refl; basic = refl });
}

pub busy-HasRunning : HasRunning busy_unit busy_heap
busy-HasRunning t e = subst (λ r. (busy_heap.job r).stage ≡ running) (some_inj e) refl
  where
    some_inj : {t : ℕ} → some 1 ≡ some t → 1 ≡ t
    some_inj e = cc

pub offered-AreOffered : AreOffered busy_heap offered_unit.suspends
unfolding job_is_basic_op
offered-AreOffered =
    one_all (IsOffered busy_heap) start 3 (record { kind = refl; fresh = refl; basic = refl })

pub offered-IsUnique : IsUnique offered_unit.suspends
unfolding get
offered-IsUnique = (refl, tt)

pub busy-IsUnique : IsUnique busy_unit.suspends
unfolding get
busy-IsUnique = (refl, tt)
