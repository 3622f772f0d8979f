-- ===== src/Unit/State.antt =====
-- core/lib/unit/state.rs: the active state of a unit, and the flags of a state change.
use sysmaster.Base.{Bool, true, false}

pub data UnitActiveState : Type 0 where
  unit_active unit_reloading unit_in_active unit_failed : UnitActiveState
  unit_activating unit_de_activating unit_maintenance : UnitActiveState

abbrev pub is_active_or_reloading : UnitActiveState → Bool
is_active_or_reloading unit_active = true
is_active_or_reloading unit_reloading = true
is_active_or_reloading _ = false

abbrev pub is_inactive_or_failed : UnitActiveState → Bool
is_inactive_or_failed unit_in_active = true
is_inactive_or_failed unit_failed = true
is_inactive_or_failed _ = false

abbrev pub is_active_or_activating : UnitActiveState → Bool
is_active_or_activating unit_active = true
is_active_or_activating unit_activating = true
is_active_or_activating unit_reloading = true
is_active_or_activating _ = false

abbrev pub is_inactive_or_deactivating : UnitActiveState → Bool
is_inactive_or_deactivating unit_in_active = true
is_inactive_or_deactivating unit_failed = true
is_inactive_or_deactivating unit_de_activating = true
is_inactive_or_deactivating _ = false

-- `UnitNotifyFlags`: the two bits that are defined.
pub record UnitNotifyFlags : Type 0 where
  pub reload_failure : Bool
  pub will_auto_restart : Bool
