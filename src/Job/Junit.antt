-- ===== src/Job/Junit.antt =====
-- core/bin/job/junit.rs: the jobs of one unit. `suspends` holds those that wait, by kind, `sq` the
-- order in which they will be triggered, `trigger` the one that runs.
-- `none` is a panic, and a method returns the changed record.
pub mod Suspends
pub mod Reshuffle
pub mod Trigger
pub mod Conflict
pub mod Kept
pub mod Settled
pub mod Reshuffled
pub mod Flush
pub mod Merge
pub mod Merged
pub mod Committed
pub mod Triggered
pub mod Finished
use sysmaster.Base.{
  ℕ, Bool, true, false, not, ◌&&◌, ◌||◌, ◌+◌, ◌-◌, List, [], ◌∷◌, Option, none, some, HashMap, get,
  contains_key, length, values, ltb, ◌==◌, nat_eq, assert, ◌>>=◌, ◌>>◌, is_some, is_none,
  if◌then◌else◌,
}
use sysmaster.Job.Kind.{JobKind, stop, nop, kind_eq}
use sysmaster.Job.Rentry.{UnitId}
use sysmaster.Job.Heap.{Heap}

-- `JobUnitData`
pub record JobUnit : Type 0 where
  pub unit : UnitId
  pub suspends : HashMap JobKind ℕ
  pub trigger : Option ℕ
  pub order : Bool
  pub sq : List ℕ
  pub interrupt : Bool
  pub retrigger : Bool
  pub dirty : Bool
  pub pause : Bool
  pub ready : Bool
  pub up_ready : Bool

unfoldable pub new_unit : UnitId → JobUnit
new_unit unit = record {
  unit = unit;
  suspends = [];
  trigger = none;
  order = true;
  sq = [];
  interrupt = false;
  retrigger = false;
  dirty = false;
  pause = false;
  ready = false;
  up_ready = false;
}

abbrev pub is_nil {ℓ} : {A : Type ℓ} → List A → Bool
is_nil [] = true
is_nil (x ∷ xs) = false

unfoldable pub calc_natural_ready_ts : JobUnit → Option Bool
calc_natural_ready_ts d =
    if d.interrupt then some true else if d.retrigger then some false else none

unfoldable pub calc_natural_ready_t : JobUnit → Option (Option Bool)
calc_natural_ready_t d = do
  assert (not d.interrupt)
  some (if d.retrigger then some false else none)

unfoldable pub calc_natural_ready_s : JobUnit → Option (Option Bool)
calc_natural_ready_s d = do assert (not d.interrupt); some (some true)

-- The `match` of `calc_natural_ready`: is something triggered, does something wait?
abbrev ready_match : Bool → Bool → JobUnit → Option (Option Bool)
ready_match true true d = some (calc_natural_ready_ts d)
ready_match true false d = calc_natural_ready_t d
ready_match false true d = calc_natural_ready_s d
ready_match false false d = some none

unfoldable pub calc_natural_ready : JobUnit → Option (Option Bool)
unfolding calc_natural_ready_ts calc_natural_ready_t calc_natural_ready_s
calc_natural_ready d =
    if d.order then ready_match (is_some d.trigger) (not (is_nil d.sq)) d else some none

unfoldable pub calc_ready : JobUnit → Option (Option Bool)
unfolding calc_natural_ready
calc_ready d = if d.pause then some none else calc_natural_ready d

unfoldable pub update_ready : JobUnit → Option JobUnit
unfolding calc_ready
update_ready d = do s ← calc_ready d; some (record d { ready = is_some s })

abbrev pub bool_to_usize : Bool → ℕ
bool_to_usize true = 1
bool_to_usize false = 0

unfoldable pub suspends_kind_len : JobUnit → JobKind → ℕ
unfolding contains_key
suspends_kind_len d kind = bool_to_usize (contains_key d.suspends kind)

-- `suspends.len() - num_stop - len(nop)`
unfoldable pub num_others : JobUnit → ℕ
unfolding suspends_kind_len
num_others d = length d.suspends - suspends_kind_len d stop - suspends_kind_len d nop

unfoldable pub is_suspends_conflict : JobUnit → Bool
unfolding suspends_kind_len num_others
is_suspends_conflict d = ltb 0 (suspends_kind_len d stop) && ltb 0 (num_others d)

unfoldable pub is_suspends_conflict_with : JobUnit → JobUnit → Bool
unfolding suspends_kind_len num_others
is_suspends_conflict_with d o =
    ltb 0 (suspends_kind_len d stop + suspends_kind_len o stop)
    && ltb 0 (num_others d + num_others o)

any_irreversible : List ℕ → Heap → Bool
any_irreversible [] h = false
any_irreversible (r ∷ rs) h = (h.job r).attr.irreversible || any_irreversible rs h

unfoldable pub is_suspends_irreversible : JobUnit → Heap → Bool
unfolding any_irreversible
is_suspends_irreversible d h = any_irreversible (values d.suspends) h

unfoldable pub is_suspends_replace_with : JobUnit → JobUnit → Heap → Option Bool
unfolding is_suspends_conflict is_suspends_irreversible suspends_kind_len num_others
is_suspends_replace_with d o h = do
  assert (not (is_suspends_conflict d) && not (is_suspends_conflict o))
  some (
      if ltb 0 (num_others d) && ltb 0 (suspends_kind_len o stop)
      then not (is_suspends_irreversible d h)
      else if ltb 0 (suspends_kind_len d stop) && ltb 0 (num_others o)
      then not (is_suspends_irreversible d h)
      else true)

unfoldable pub is_trigger : JobUnit → ℕ → Bool
is_trigger d r = elim d.trigger [ none ↦ false | some t ↦ t == r ]

unfoldable pub is_empty : JobUnit → Bool
is_empty d = is_none d.trigger && is_nil d.suspends

unfoldable pub len : JobUnit → ℕ
len d = bool_to_usize (is_some d.trigger) + length d.suspends
