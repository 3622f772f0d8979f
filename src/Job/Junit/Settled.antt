-- ===== src/Job/Junit/Settled.antt =====
-- core/bin/job/junit.rs: reshuffling merges the jobs that wait and leaves them in order.
use sysmaster.Base.{
  IsDistinct, ℕ, Bool, true, false, not, ◌&&◌, ◌||◌, ◌≡◌, ◌⊎◌, none, some, List, [], ◌∷◌, ◌++◌, ◌≤◌,
  length, arith, HashMap, get, remove, get-remove, contains_key, is_some, if◌then◌else◌, List-cases,
  Option-cases, nat_eq, inl, inr,
}
use sysmaster.Unit.State.{is_active_or_reloading}
use sysmaster.Job.Kind.{JobKind, start, stop, reload, restart, verify, nop, kind_eq}
use sysmaster.Job.Entry.{Units}
use sysmaster.Job.Heap.{Heap}
use sysmaster.Job.Heap.Finish.{AreWaiting}
use sysmaster.Job.Junit.{JobUnit, update_ready, is_nil}
use sysmaster.Job.Junit.Reshuffle.{
  jobs_merge_suspend, sq_order, reorder, is_interrupter, interrupt_match,
}
use sysmaster.Job.Junit.Trigger.{opt_to_list}
use sysmaster.Job.Junit.Kept.{IsKept, AreFiled}

abbrev pub waiting : HashMap JobKind ℕ → JobKind → List ℕ
waiting m k = opt_to_list (get m k)

-- The order in which the jobs that wait are to run: a stop alone; or else the one of restart, start
-- and reload, then verify, then nop.
unfoldable pub in_order : HashMap JobKind ℕ → List ℕ
unfolding contains_key
in_order m =
    if contains_key m stop
    then waiting m stop
    else waiting m restart
      ++ waiting m start
      ++ waiting m reload
      ++ waiting m verify
      ++ waiting m nop

-- Does a kind wait that may interrupt the trigger?
unfoldable pub has_interrupter : HashMap JobKind ℕ → Bool
unfolding contains_key
has_interrupter m = contains_key m stop || contains_key m restart

-- The kinds that merging takes out: start and reload at a restart; of both, the one that the unit's
-- state makes needless.
abbrev pub is_absorbed : Units → JobUnit → JobKind → Bool
is_absorbed u d start =
    not (contains_key d.suspends stop)
    && (contains_key d.suspends restart
        || contains_key d.suspends reload && is_active_or_reloading (u.active_state d.unit))
is_absorbed u d reload =
    not (contains_key d.suspends stop)
    && (contains_key d.suspends restart
        || contains_key d.suspends start && not (is_active_or_reloading (u.active_state d.unit)))
is_absorbed u d _ = false

abbrev pub merged_unit : Units → JobUnit → JobUnit
merged_unit u d = (jobs_merge_suspend u d []).0

pub get-merged_unit :
    (u : Units) (d : JobUnit) (k : JobKind)
    → get (merged_unit u d).suspends k ≡ (if is_absorbed u d k then none else get d.suspends k)
unfolding jobs_merge_suspend
get-merged_unit u d start = ground (
  arith,
  get-remove d.suspends start start,
  get-remove d.suspends reload start,
  get-remove (remove d.suspends start) reload start,
)
get-merged_unit u d reload = ground (
  arith,
  get-remove d.suspends start reload,
  get-remove d.suspends reload reload,
  get-remove (remove d.suspends start) reload reload,
)
get-merged_unit u d k = ground (
  arith,
  get-remove d.suspends start k,
  get-remove d.suspends reload k,
  get-remove (remove d.suspends start) reload k,
)

sq_order_lem :
    (d : JobUnit)
    → (contains_key d.suspends stop ≡ true)
      ⊎ (length
            (waiting d.suspends restart ++ waiting d.suspends start ++ waiting d.suspends reload)
          ≤ 1)
    → sq_order d ≡ some (record d { sq = in_order d.suspends })
unfolding sq_order in_order
sq_order_lem d h = ground arith

-- Merging changes the jobs that wait, and nothing else.
merged_unit-fields :
    (u : Units) (d : JobUnit) → merged_unit u d ≡ record d { suspends = (merged_unit u d).suspends }
unfolding jobs_merge_suspend
merged_unit-fields u d = ground arith

-- The jobs that merging takes out.
abbrev pub absorbed : Units → JobUnit → List ℕ
absorbed u d =
    (if is_absorbed u d start then waiting d.suspends start else [])
    ++ (if is_absorbed u d reload then waiting d.suspends reload else [])

absorbed_lem : (u : Units) (d : JobUnit) → (jobs_merge_suspend u d []).1 ≡ absorbed u d
unfolding jobs_merge_suspend
absorbed_lem u d = ground (arith, get-remove d.suspends start reload)

pub absorbed-IsDistinct :
    (u : Units) (d : JobUnit) (h : Heap) → IsKept d h → IsDistinct (absorbed u d)
absorbed-IsDistinct u d h kept = elim (Option-cases (get d.suspends start)) [
  | inl e ↦ ground arith
  | inr (r, e) ↦ elim (Option-cases (get d.suspends reload)) [
    | inl e' ↦ ground arith
    | inr (s, e') ↦ ground (
      arith,
      kept.filed start r e,
      kept.filed reload s e',
      nat_eq.beq_iff r s,
      nat_eq.beq_iff s r,
    )
  ]
]

pub absorbed-AreWaiting :
    (u : Units) (d : JobUnit) (h : Heap) → IsKept d h → AreWaiting h (absorbed u d)
absorbed-AreWaiting u d h kept = elim (Option-cases (get d.suspends start)) [
  | inl e ↦ elim (Option-cases (get d.suspends reload)) [
    | inl e' ↦ ground arith
    | inr (s, e') ↦ ground (arith, kept.filed reload s e')
  ]
  | inr (r, e) ↦ elim (Option-cases (get d.suspends reload)) [
    | inl e' ↦ ground (arith, kept.filed start r e)
    | inr (s, e') ↦ ground (arith, kept.filed start r e, kept.filed reload s e')
  ]
]

-- The first in the order is a job that interrupts exactly if a stop or a restart waits.
front_lem :
    (h : Heap) (m : HashMap JobKind ℕ) (r : ℕ) (rs : List ℕ)
    → AreFiled h m
    → in_order m ≡ r ∷ rs
    → is_interrupter (h.job r).kind ≡ has_interrupter m
unfolding in_order has_interrupter
front_lem h m r rs f e =
    ground (arith, f stop r, f restart r, f start r, f reload r, f verify r, f nop r)

-- The unit after reshuffling, with the jobs `m` left that wait.
abbrev pub settled : JobUnit → HashMap JobKind ℕ → JobUnit
settled d m =
    let i = is_some d.trigger && has_interrupter m in
    record d {
      suspends = m;
      sq = in_order m;
      order = true;
      interrupt = i;
      ready =
          not d.pause
          && (if is_some d.trigger then i || d.retrigger else not (is_nil (in_order m)));
    }

-- An interrupt was marked for a trigger, and something waits that may have been its cause.
abbrev pub HasCause : JobUnit → Type 0
HasCause d =
    d.interrupt ≡ true
    → (is_some d.trigger ≡ true) × ((k : JobKind) × (contains_key d.suspends k ≡ true))

-- At most one of restart, start and reload is left, unless a stop waits.
merged_unit-single :
    (u : Units) (d : JobUnit)
    → let m = (merged_unit u d).suspends in
      (contains_key m stop ≡ true)
      ⊎ (length (waiting m restart ++ waiting m start ++ waiting m reload) ≤ 1)
unfolding contains_key
merged_unit-single u d = ground (
  arith,
  get-merged_unit u d stop,
  get-merged_unit u d restart,
  get-merged_unit u d start,
  get-merged_unit u d reload,
)

pub reorder_lem :
    (u : Units) (d : JobUnit)
    → reorder u d
      ≡ some (
        record d {
          suspends = (merged_unit u d).suspends;
          sq = in_order (merged_unit u d).suspends;
          order = true;
        },
        absorbed u d,
      )
unfolding reorder
reorder_lem u d =
    rw (sq_order_lem (merged_unit u d) (merged_unit-single u d))
      (ground (arith, merged_unit-fields u d, absorbed_lem u d))

pub nil_lem : (m : HashMap JobKind ℕ) → in_order m ≡ [] → has_interrupter m ≡ false
unfolding in_order has_interrupter
nil_lem m e = ground arith

pub ordered_lem :
    (d : JobUnit) (h : Heap)
    → AreFiled h d.suspends
    → d.order ≡ true
    → d.sq ≡ in_order d.suspends
    → (d.interrupt ≡ true → (is_some d.trigger ≡ true) × (is_nil d.sq ≡ false))
    → update_ready (interrupt_match d.trigger d.sq d h) ≡ some (settled d d.suspends)
unfolding update_ready
ordered_lem d h f o q i = elim (List-cases (in_order d.suspends)) [
  | inl e ↦ ground (arith, nil_lem d.suspends e)
  | inr (r, rs, e) ↦ ground (arith, front_lem h d.suspends r rs f e)
]
