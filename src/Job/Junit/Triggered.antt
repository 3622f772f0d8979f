-- ===== src/Job/Junit/Triggered.antt =====
-- core/bin/job/junit.rs: what `do_next_trigger` chooses and what `finish_trigger` leaves.
use sysmaster.Base.{
  ℕ, Bool, true, false, ◌≡◌, ◌≢◌, ◌⊎◌, refl, Option, none, some, List, ◌∷◌, arith, remove,
  if◌then◌else◌, Option-cases, List-cases, inl, inr,
}
use sysmaster.Job.Kind.{kind_eq}
use sysmaster.Job.Heap.{Heap}
use sysmaster.Job.Junit.{JobUnit, calc_ready, update_ready, is_nil}
use sysmaster.Job.Junit.Trigger.{do_next_trigger, get_next_trigger}

-- What a trigger of a ready unit does: the job `r` runs next, in place of `m`.
pub record IsTriggered (d : JobUnit) (h : Heap) (r : ℕ) (m : Option ℕ) (d' : JobUnit) : Type 0 where
  pub peeked : get_next_trigger d ≡ some r
  pub trigger : d'.trigger ≡ some r
  pub uninterrupted : d'.interrupt ≡ false
  -- A trigger that runs is run again or was interrupted.
  pub busy :
      (t : ℕ) → d.trigger ≡ some t → ((t ≡ r) × (m ≡ none)) ⊎ ((d.interrupt ≡ true) × (m ≡ some t))
  -- Either the order and what waits stay, or the first of the order leaves both.
  pub waits :
      ((d'.sq ≡ d.sq) × (d'.suspends ≡ d.suspends))
      ⊎ ((d.sq ≡ r ∷ d'.sq) × (d'.suspends ≡ remove d.suspends (h.job r).kind))

-- The unit after the first of the order was chosen.
abbrev suspended_next : JobUnit → Heap → ℕ → List ℕ → JobUnit
suspended_next d h r rs = record d {
  interrupt = false;
  retrigger = if d.interrupt then false else d.retrigger;
  trigger = some r;
  sq = rs;
  suspends = remove d.suspends (h.job r).kind;
  dirty = true;
  ready = if d.interrupt then false else d.retrigger;
}

suspended_steps :
    (d : JobUnit) (h : Heap) (r : ℕ) (rs : List ℕ)
    → calc_ready d ≡ some (some true)
    → d.order ≡ true
    → d.pause ≡ false
    → d.sq ≡ r ∷ rs
    → (d.interrupt ≡ true) ⊎ (d.trigger ≡ none)
    → do_next_trigger d h
      ≡ some (r, (if d.interrupt then d.trigger else none), suspended_next d h r rs)
unfolding do_next_trigger update_ready
suspended_steps d h r rs c o p q b = ground arith

do_next_trigger_suspended :
    (d : JobUnit) (h : Heap) (r : ℕ) (rs : List ℕ)
    → calc_ready d ≡ some (some true)
    → d.order ≡ true
    → d.pause ≡ false
    → d.sq ≡ r ∷ rs
    → (d.interrupt ≡ true) ⊎ (d.trigger ≡ none)
    → IsTriggered d h r (if d.interrupt then d.trigger else none) (suspended_next d h r rs)
unfolding get_next_trigger
do_next_trigger_suspended d h r rs c o p q b = record {
  peeked = ground arith;
  trigger = refl;
  uninterrupted = refl;
  busy = λ t e. ground arith;
  waits = inr (q, refl);
}

-- The unit after its trigger is to be run again.
abbrev retriggered_next : JobUnit → JobUnit
retriggered_next d = record d { retrigger = false; dirty = true; ready = false }

retriggered_steps :
    (d : JobUnit) (h : Heap) (t : ℕ)
    → calc_ready d ≡ some (some false)
    → d.pause ≡ false
    → d.order ≡ true
    → d.interrupt ≡ false
    → d.retrigger ≡ true
    → d.trigger ≡ some t
    → do_next_trigger d h ≡ some (t, none, retriggered_next d)
unfolding do_next_trigger update_ready
retriggered_steps d h t c p o i re e = ground arith

do_next_trigger_retriggered :
    (d : JobUnit) (h : Heap) (t : ℕ)
    → calc_ready d ≡ some (some false)
    → d.interrupt ≡ false
    → d.retrigger ≡ true
    → d.trigger ≡ some t
    → IsTriggered d h t none (retriggered_next d)
unfolding get_next_trigger
do_next_trigger_retriggered d h t c i re e = record {
  peeked = ground arith;
  trigger = e;
  uninterrupted = i;
  busy = λ x e'. ground arith;
  waits = inl (refl, refl);
}

-- What `calc_ready` found when it answers.
ready_waiting :
    (d : JobUnit)
    → calc_ready d ≡ some (some true)
    → (d.order ≡ true)
      × (d.pause ≡ false)
      × (is_nil d.sq ≡ false)
      × ((d.interrupt ≡ true) ⊎ (d.trigger ≡ none))
unfolding calc_ready
ready_waiting d c = ground arith

ready_again :
    (d : JobUnit)
    → calc_ready d ≡ some (some false)
    → (d.order ≡ true)
      × (d.pause ≡ false)
      × (d.interrupt ≡ false)
      × (d.retrigger ≡ true)
      × (d.trigger ≢ none)
unfolding calc_ready
ready_again d c = ground arith

-- A unit that is ready, because something waits or because its trigger is to be run again, is
-- triggered without a panic. The job that comes is the one that `get_next_trigger` shows; it
-- becomes the trigger, and no interrupt is left. A job that was running is run again, or it was
-- marked to be interrupted and is the one to be merged. Either the order and the jobs that wait
-- stay, or the job was the first of the order and leaves both.
pub do_next_trigger_lem :
    (d : JobUnit) (h : Heap) (b : Bool)
    → calc_ready d ≡ some (some b)
    → (r : ℕ) × (m : Option ℕ) × (d' : JobUnit) × (do_next_trigger d h ≡ some (r, m, d'))
      × IsTriggered d h r m d'
do_next_trigger_lem d h true c =
    let (o, p, q, x) = ready_waiting d c in
    elim (List-cases d.sq) [
      | inl e ↦ cc
      | inr (r, rs, e) ↦ (
        r,
        if d.interrupt then d.trigger else none,
        suspended_next d h r rs,
        suspended_steps d h r rs c o p e x,
        do_next_trigger_suspended d h r rs c o p e x,
      )
    ]
do_next_trigger_lem d h false c =
    let (o, p, i, re, ne) = ready_again d c in
    elim (Option-cases d.trigger) [
      | inl e ↦ absurd (ne e)
      | inr (t, e) ↦ (
        t,
        none,
        retriggered_next d,
        retriggered_steps d h t c p o i re e,
        do_next_trigger_retriggered d h t c i re e,
      )
    ]
