-- ===== src/Job/Notify.antt =====
-- core/bin/job/notify.rs: the jobs that the result or the event of a job asks for at other units.
use sysmaster.Base.{
  false, not, ◌||◌, ◌≡◌, refl, List, [], ◌∷◌, ◌++◌, Option, none, some, if◌then◌else◌, All, ◌⊎◌,
  inl, inr, Bool-cases, assert, ◌>>=◌, ◌>>◌, ◌==◌,
}
use sysmaster.Unit.Relation.AtomNames.{
  UnitRelationAtom, atom_eq, unit_atom_on_success, unit_atom_on_failure, unit_atom_after,
  unit_atom_retro_active_start_replace, unit_atom_retro_active_start_fail,
  unit_atom_retro_active_stop_on_start, unit_atom_retro_active_stop_on_stop,
  unit_atom_propagates_reload_to,
}
use sysmaster.Unit.Deps.{UnitId, DepTable, gets_atom, is_dep_atom_with}
use sysmaster.Job.Kind.{JobKind, start, stop, reload, try_reload, JobMode, replace, fail}

pub record JobConf : Type 0 where
  pub unit : UnitId
  pub kind : JobKind

abbrev configs : List UnitId → JobKind → List JobConf
configs [] kind = []
configs (other ∷ others) kind = record { unit = other; kind = kind } ∷ configs others kind

abbrev targets : List UnitId → JobKind → JobMode → List (JobConf × JobMode)
targets [] kind mode = []
targets (other ∷ others) kind mode =
    (record { unit = other; kind = kind }, mode) ∷ targets others kind mode

-- The loops that leave out a unit that `unit` is ordered after.
targets_unordered : DepTable → UnitId → List UnitId → JobMode → List (JobConf × JobMode)
targets_unordered t unit [] mode = []
targets_unordered t unit (other ∷ others) mode =
    let rest = targets_unordered t unit others mode in
    if not (is_dep_atom_with t unit unit_atom_after other)
    then (record { unit = other; kind = start }, mode) ∷ rest
    else rest

abbrev pub unwrap_or : Option JobMode → JobMode → JobMode
unwrap_or none m = m
unwrap_or (some x) m = x

unfoldable pub notify_result_start : DepTable → UnitId → UnitRelationAtom → Option (List JobConf)
notify_result_start t unit atom = do
  assert (atom == unit_atom_on_success || atom == unit_atom_on_failure)
  some (configs (gets_atom t unit atom) start)

abbrev with_mode : JobMode → List JobConf → Option (List JobConf × JobMode)
with_mode mode cs = some (cs, mode)

unfoldable pub job_notify_result :
    DepTable → UnitId → UnitRelationAtom → JobMode → Option (List JobConf × JobMode)
unfolding notify_result_start
job_notify_result t unit unit_atom_on_success mode = do
  cs ← notify_result_start t unit unit_atom_on_success
  with_mode mode cs
job_notify_result t unit unit_atom_on_failure mode = do
  cs ← notify_result_start t unit unit_atom_on_failure
  with_mode mode cs
job_notify_result t unit _ mode = none

unfoldable pub notify_event_start : DepTable → JobConf → Option JobMode → List (JobConf × JobMode)
unfolding targets_unordered
notify_event_start t config mode_option =
    targets_unordered t config.unit (gets_atom t config.unit unit_atom_retro_active_start_replace)
      (unwrap_or mode_option replace)
    ++ (targets_unordered t config.unit (gets_atom t config.unit unit_atom_retro_active_start_fail)
          (unwrap_or mode_option fail)
        ++ targets (gets_atom t config.unit unit_atom_retro_active_stop_on_start) stop
            (unwrap_or mode_option replace))

unfoldable pub notify_event_stop : DepTable → JobConf → Option JobMode → List (JobConf × JobMode)
notify_event_stop t config mode_option =
    targets (gets_atom t config.unit unit_atom_retro_active_stop_on_stop) stop
      (unwrap_or mode_option replace)

unfoldable pub notify_event_reload : DepTable → JobConf → Option JobMode → List (JobConf × JobMode)
notify_event_reload t config mode_option =
    targets (gets_atom t config.unit unit_atom_propagates_reload_to) try_reload
      (unwrap_or mode_option fail)

abbrev event_match :
    JobKind → DepTable → JobConf → Option JobMode → Option (List (JobConf × JobMode))
unfolding notify_event_start notify_event_stop notify_event_reload
event_match start t config m = some (notify_event_start t config m)
event_match stop t config m = some (notify_event_stop t config m)
event_match reload t config m = some (notify_event_reload t config m)
event_match _ t config m = none

unfoldable pub job_notify_event :
    DepTable → JobConf → Option JobMode → Option (List (JobConf × JobMode))
unfolding event_match
job_notify_event t config mode_option = event_match config.kind t config mode_option

-- A job that an event may ask for: it stops or reloads, or it starts a unit that this one is not
-- ordered after.
abbrev pub IsAllowed : DepTable → UnitId → JobConf × JobMode → Type 0
IsAllowed t unit c =
    (c.0.kind ≡ stop)
    ⊎ (c.0.kind ≡ try_reload)
    ⊎ (c.0.kind ≡ start × is_dep_atom_with t unit unit_atom_after c.0.unit ≡ false)

All-append {ℓ κ} :
    {A : Type ℓ} (P : A → Type κ) (xs ys : List A) → All P xs → All P ys → All P (xs ++ ys)
All-append P [] ys h k = k
All-append P (x ∷ xs) ys (p, h) k = (p, All-append P xs ys h k)

unordered-IsAllowed :
    (t : DepTable) (unit : UnitId) (os : List UnitId) (m : JobMode)
    → All (IsAllowed t unit) (targets_unordered t unit os m)
unfolding targets_unordered
unordered-IsAllowed t unit [] m = tt
unordered-IsAllowed t unit (o ∷ os) m =
    elim (Bool-cases (is_dep_atom_with t unit unit_atom_after o)) [
      | inl e ↦ rw e (unordered-IsAllowed t unit os m)
      | inr e ↦ rw e (inr (inr (refl, e)), unordered-IsAllowed t unit os m)
    ]

targets-IsAllowed :
    (t : DepTable) (unit : UnitId) (os : List UnitId) (k : JobKind) (m : JobMode)
    → (k ≡ stop) ⊎ (k ≡ try_reload)
    → All (IsAllowed t unit) (targets os k m)
targets-IsAllowed t unit [] k m h = tt
targets-IsAllowed t unit (o ∷ os) k m h =
    (elim h [ inl e ↦ inl e | inr e ↦ inr (inl e) ], targets-IsAllowed t unit os k m h)

event_start-IsAllowed :
    (t : DepTable) (config : JobConf) (m : Option JobMode)
    → All (IsAllowed t config.unit) (notify_event_start t config m)
unfolding notify_event_start
event_start-IsAllowed t config m =
    All-append (IsAllowed t config.unit) _ _
      (unordered-IsAllowed t config.unit
        (gets_atom t config.unit unit_atom_retro_active_start_replace) (unwrap_or m replace))
      (All-append (IsAllowed t config.unit) _ _
        (unordered-IsAllowed t config.unit
          (gets_atom t config.unit unit_atom_retro_active_start_fail) (unwrap_or m fail))
        (targets-IsAllowed t config.unit
          (gets_atom t config.unit unit_atom_retro_active_stop_on_start) stop (unwrap_or m replace)
          (inl refl)))

event-IsAllowed :
    (k : JobKind) (t : DepTable) (config : JobConf) (m : Option JobMode)
    → (k ≡ start) ⊎ (k ≡ stop) ⊎ (k ≡ reload)
    → (cs : List (JobConf × JobMode)) × (event_match k t config m ≡ some cs)
      × All (IsAllowed t config.unit) cs
unfolding event_match notify_event_stop notify_event_reload
event-IsAllowed start t config m h =
    (notify_event_start t config m, refl, event_start-IsAllowed t config m)
event-IsAllowed stop t config m h = (
  notify_event_stop t config m,
  refl,
  targets-IsAllowed t config.unit (gets_atom t config.unit unit_atom_retro_active_stop_on_stop) stop
      (unwrap_or m replace) (inl refl),
)
event-IsAllowed reload t config m h = (
  notify_event_reload t config m,
  refl,
  targets-IsAllowed t config.unit (gets_atom t config.unit unit_atom_propagates_reload_to)
      try_reload (unwrap_or m fail) (inr refl),
)
event-IsAllowed _ t config m h = elim h [ inl e ↦ cc | inr (inl e) ↦ cc | inr (inr e) ↦ cc ]

-- The event of a start, a stop or a reload does not panic, and whatever job it asks for at another
-- unit is a stop, a reload that is tried, or a start of a unit that the first is not ordered after.
pub job_notify_event_lem :
    (t : DepTable) (config : JobConf) (m : Option JobMode)
    → (config.kind ≡ start) ⊎ (config.kind ≡ stop) ⊎ (config.kind ≡ reload)
    → (cs : List (JobConf × JobMode)) × (job_notify_event t config m ≡ some cs)
      × All (IsAllowed t config.unit) cs
unfolding job_notify_event
job_notify_event_lem t config m h = event-IsAllowed config.kind t config m h
