-- ===== src/Job/Lifecycle/Ended.antt =====
-- core/bin/job/entry.rs: what `finish` makes of a job and of its entries in the database.
use sysmaster.Base.{
  Bool, true, false, ◌||◌, ◌&&◌, ◌≡◌, ◌≢◌, ◌⊎◌, refl, inl, inr, none, some, get-remove,
  get-remove_self, string_eq, ◌==◌, arith, if◌then◌else◌,
}
use sysmaster.Job.Kind.{
  JobKind, start, stop, restart, kind_eq, JobResult, done, is_wait, is_running, running, end,
}
use sysmaster.Job.Rentry.{
  UnitId, JobRe, JobReSuspKey, trigger_get, suspends_get, trigger_remove, suspends_remove, key_eq,
}
use sysmaster.Job.Entry.{Job, finish_job}
use sysmaster.Job.Lifecycle.{JobReach, JobReach-IsMirrored, IsMirrored, finish_job_steps}

-- Does the job go on running, as the second half of a restart?
abbrev pub IsHalfDone : Job → JobResult → Type 0
IsHalfDone j r = (r ≡ done) × (j.kind ≡ restart) × (j.run_kind ≡ stop)

-- The database without the entries of a job that has ended. All others are as they were, and so is the
-- trigger entry of its unit if the job waited.
pub record IsGone (j : Job) (re re' : JobRe) : Type 0 where
  pub no_suspend : suspends_get re' j.unit j.kind ≡ none
  pub no_trigger : is_running j.stage ≡ true → trigger_get re' j.unit ≡ none
  pub kept_trigger : is_wait j.stage ≡ true → trigger_get re' j.unit ≡ trigger_get re j.unit
  pub other_suspends :
      (v : UnitId) (k : JobKind)
      → (j.unit == v && j.kind == k) ≡ false
      → suspends_get re' v k ≡ suspends_get re v k
  pub other_triggers : (v : UnitId) → (j.unit == v) ≡ false → trigger_get re' v ≡ trigger_get re v

IsGone-waited :
    (j : Job) (re : JobRe) → is_wait j.stage ≡ true → IsGone j re (suspends_remove re j.unit j.kind)
unfolding suspends_remove suspends_get trigger_get
IsGone-waited j re w =
    let key : JobReSuspKey = record { unit_id = j.unit; kind = j.kind } in
    record {
      no_suspend = get-remove_self re.suspends key;
      no_trigger = λ r. ground (arith, w, r);
      kept_trigger = λ e. refl;
      other_suspends = λ v k ne.
          ground (arith, ne, get-remove re.suspends key (record { unit_id = v; kind = k }));
      other_triggers = λ v ne. refl;
    }

IsGone-ran :
    (j : Job) (re : JobRe)
    → IsMirrored j re
    → is_running j.stage ≡ true
    → IsGone j re (trigger_remove re j.unit)
unfolding trigger_remove suspends_get trigger_get
IsGone-ran j re m r = record {
  no_suspend = ground (arith, m.suspended, r);
  no_trigger = λ e. get-remove_self re.trigger j.unit;
  kept_trigger = λ e. ground (arith, r, e);
  other_suspends = λ v k ne. refl;
  other_triggers = λ v ne. ground (arith, ne, get-remove re.trigger j.unit v);
}

IsGone-ended :
    (j : Job) (re : JobRe)
    → IsMirrored j re
    → (is_wait j.stage || is_running j.stage) ≡ true
    → (b : Bool) → is_wait j.stage ≡ b
    → IsGone j re (if b then suspends_remove re j.unit j.kind else trigger_remove re j.unit)
IsGone-ended j re m live true w = IsGone-waited j re w
IsGone-ended j re m live false w = IsGone-ran j re m (ground (arith, w, live))

half-cases :
    (j : Job) (r : JobResult)
    → IsHalfDone j r ⊎ ((r ≢ done) ⊎ (j.kind ≢ restart) ⊎ (j.run_kind ≢ stop))
half-cases j r = ground arith

-- What is left of a job and of the database once it is finished: it goes on running, or it has ended.
abbrev pub IsFinished : Job → JobResult → JobRe → Bool → Job → JobRe → Type 0
IsFinished j r re retry j' re' =
    (IsHalfDone j r
      × (retry ≡ true)
      × (j' ≡ record j { run_kind = start; stage = running })
      × (re' ≡ re))
    ⊎ (¬ (IsHalfDone j r) × (retry ≡ false) × (j' ≡ record j { stage = end r }) × IsGone j re re')

-- Finishing a reached job that waits or runs does not panic. It asks for another run exactly if the
-- result is `Done` and the job is a restart that was to stop: then start is next, and the database is
-- as it was. Otherwise the job ends with the result, and nothing else of it changes: the database has
-- no suspend entry of it, and no trigger entry of its unit if it ran; all other entries stay.
pub finish_job_lem :
    {j : Job} {re : JobRe} (r : JobResult)
    → JobReach j re
    → (is_wait j.stage || is_running j.stage) ≡ true
    → (retry : Bool) × (j' : Job) × (re' : JobRe) × (finish_job j r re ≡ some (retry, j', re'))
      × IsFinished j r re retry j' re'
finish_job_lem {j} {re} r reach live = elim (half-cases j r) [
  | inl (d, k, s) ↦ (
    true,
    record j { run_kind = start; stage = running },
    re,
    (finish_job_steps r reach live).0 d k s,
    inl ((d, k, s), refl, refl, refl),
  )
  | inr ne ↦ (
    false,
    record j { stage = end r },
    _,
    (finish_job_steps r reach live).1 ne,
    inr (
      λ h. ground (arith, ne, h),
      refl,
      refl,
      IsGone-ended j re (JobReach-IsMirrored reach) live (is_wait j.stage) refl,
    ),
  )
]
