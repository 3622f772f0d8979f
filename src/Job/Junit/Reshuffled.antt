-- ===== src/Job/Junit/Reshuffled.antt =====
-- core/bin/job/junit.rs: `JobUnitData::reshuffle` as a whole, and where it panics.
use sysmaster.Base.{
  ℕ, true, false, ◌≡◌, refl, none, some, List, [], arith, HashMap, get, contains_key, if◌then◌else◌,
  Option-cases, inl, inr,
}
use sysmaster.Job.Kind.{
  JobKind, start, stop, reload, restart, verify, nop, kind_eq, merged, job_is_basic_op,
}
use sysmaster.Job.Entry.{Units}
use sysmaster.Job.Heap.{Heap, finish_all}
use sysmaster.Job.Heap.Finish.{IsEnded, finish_all_lem}
use sysmaster.Job.Junit.{JobUnit, is_suspends_conflict, is_nil, update_ready}
use sysmaster.Job.Junit.Reshuffle.{reorder, reshuffle, jobs_merge_trigger_prepare, interrupt_match}
use sysmaster.Job.Junit.Kept.{IsKept, AreFiled}
use sysmaster.Job.Junit.Settled.{
  in_order, is_absorbed, absorbed, settled, HasCause, merged_unit, get-merged_unit, reorder_lem,
  ordered_lem, absorbed-IsDistinct, absorbed-AreWaiting,
}

merged_unit-AreFiled :
    (u : Units) (d : JobUnit) (h : Heap) → IsKept d h → AreFiled h (merged_unit u d).suspends
merged_unit-AreFiled u d h kept k r e = kept.filed k r (ground (arith, get-merged_unit u d k))

-- If a basic kind waits, something is left in the order.
in_order-merged_unit :
    (u : Units) (d : JobUnit) (k : JobKind)
    → job_is_basic_op k ≡ true
    → contains_key d.suspends k ≡ true
    → is_nil (in_order (merged_unit u d).suspends) ≡ false
unfolding in_order contains_key job_is_basic_op
in_order-merged_unit u d k b c = ground (
  arith,
  get-merged_unit u d stop,
  get-merged_unit u d restart,
  get-merged_unit u d start,
  get-merged_unit u d reload,
  get-merged_unit u d verify,
  get-merged_unit u d nop,
)

basic_of_contains :
    (d : JobUnit) (h : Heap) (k : JobKind)
    → IsKept d h
    → contains_key d.suspends k ≡ true
    → job_is_basic_op k ≡ true
unfolding contains_key
basic_of_contains d h k kept c = elim (Option-cases (get d.suspends k)) [
  | inl e ↦ cc
  | inr (r, e) ↦ (kept.filed k r e).basic
]

reorder_settles :
    (u : Units) (d : JobUnit) (h : Heap)
    → IsKept d h
    → HasCause d
    → let m = (merged_unit u d).suspends in
      let d1 = record d { suspends = m; sq = in_order m; order = true } in
      update_ready (interrupt_match d1.trigger d1.sq d1 h) ≡ some (settled d m)
reorder_settles u d h kept cause =
    ordered_lem d1 h (merged_unit-AreFiled u d h kept) refl refl (λ i.
      let (t, found) = cause i in
      let (k, c) = found in (t, in_order-merged_unit u d k (basic_of_contains d h k kept c) c))
  where
    d1 : JobUnit
    d1 = record d {
      suspends = (merged_unit u d).suspends;
      sq = in_order (merged_unit u d).suspends;
      order = true;
    }

reshuffle_steps :
    (u : Units) (d : JobUnit) (h : Heap) {d1 d3 : JobUnit} {ms : List ℕ} {h' : Heap}
    → is_suspends_conflict d ≡ false
    → d.order ≡ false
    → reorder u d ≡ some (d1, ms)
    → d1.order ≡ true
    → update_ready (interrupt_match d1.trigger d1.sq d1 h) ≡ some d3
    → finish_all ms merged h ≡ some h'
    → reshuffle u d h ≡ some (ms, d3, h')
unfolding reshuffle jobs_merge_trigger_prepare
reshuffle_steps u d h c o e1 o1 e2 e3 = ground arith

reshuffle_panics :
    (u : Units) (d : JobUnit) (h : Heap) {d1 : JobUnit} {ms : List ℕ}
    → d.order ≡ false
    → reorder u d ≡ some (d1, ms)
    → update_ready (interrupt_match d1.trigger d1.sq d1 h) ≡ none
    → reshuffle u d h ≡ none
unfolding reshuffle jobs_merge_trigger_prepare
reshuffle_panics u d h o e1 e2 = ground arith

-- Reshuffling a unit whose jobs are kept, not in order and without a conflict never panics, if an
-- interrupt was marked only for a trigger and while something waits. It ends the jobs that merging
-- takes out as merged, and no other; the rest waits in the order stop alone, or one of restart, start
-- and reload, then verify, then nop. The trigger is marked to be interrupted exactly if a stop or a
-- restart waits, and the unit is ready exactly if it is not paused and the trigger is to be
-- interrupted or triggered again or, with no trigger, if something is in order.
pub reshuffle_lem :
    (u : Units) (d : JobUnit) (h : Heap)
    → IsKept d h
    → is_suspends_conflict d ≡ false
    → d.order ≡ false
    → HasCause d
    → (m : HashMap JobKind ℕ) × (h' : Heap) × (reshuffle u d h
        ≡ some (absorbed u d, settled d m, h'))
      × ((k : JobKind) → get m k ≡ (if is_absorbed u d k then none else get d.suspends k))
      × IsEnded h (absorbed u d) merged h'
reshuffle_lem u d h kept c o cause =
    let (h', e, ended) =
      finish_all_lem (absorbed u d) merged h (λ x. cc) (absorbed-IsDistinct u d h kept)
        (absorbed-AreWaiting u d h kept) in
    (
      (merged_unit u d).suspends,
      h',
      reshuffle_steps u d h c o (reorder_lem u d) refl (reorder_settles u d h kept cause) e,
      get-merged_unit u d,
      ended,
    )

stale_ready :
    (d : JobUnit) (h : Heap) (t : ℕ)
    → d.trigger ≡ some t
    → d.interrupt ≡ true
    → d.pause ≡ false
    → d.order ≡ true
    → d.sq ≡ []
    → update_ready (interrupt_match d.trigger d.sq d h) ≡ none
unfolding update_ready
stale_ready d h t e i p o q = ground arith

in_order-merged_nil :
    (u : Units) (d : JobUnit) → d.suspends ≡ [] → in_order (merged_unit u d).suspends ≡ []
unfolding in_order get
in_order-merged_nil u d e = ground (
  arith,
  get-merged_unit u d stop,
  get-merged_unit u d restart,
  get-merged_unit u d start,
  get-merged_unit u d reload,
  get-merged_unit u d verify,
  get-merged_unit u d nop,
)

-- A unit in which nothing waits, but whose trigger is marked to be interrupted, and that is
-- neither paused nor in order, panics when its jobs are put in order.
pub reshuffle_stale :
    (u : Units) (d : JobUnit) (h : Heap) (t : ℕ)
    → d.trigger ≡ some t
    → d.interrupt ≡ true
    → d.pause ≡ false
    → d.order ≡ false
    → d.suspends ≡ []
    → reshuffle u d h ≡ none
reshuffle_stale u d h t e i p o s = reshuffle_panics u d h o (reorder_lem u d) (
    stale_ready
      (record d {
        suspends = (merged_unit u d).suspends;
        sq = in_order (merged_unit u d).suspends;
        order = true;
      })
      h t e i p refl (in_order-merged_nil u d s))
