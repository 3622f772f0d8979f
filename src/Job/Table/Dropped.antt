-- ===== src/Job/Table/Dropped.antt =====
-- core/bin/job/table.rs: a table that is new, cleared or updated, or that loses a unit.
use sysmaster.Base.{
  Bool, true, false, ◌≡◌, ◌↔◌, refl, inl, inr, ◌⊎◌, List, [], ◌∷◌, none, get, remove, contains,
  get-remove, get-remove_self, string_eq, arith,
}
use sysmaster.Job.Junit.{is_nil}
use sysmaster.Job.Rentry.{UnitId}
use sysmaster.Job.Table.{JobUnitTable, new_unit_table}
use sysmaster.Job.Table.Ready.{update_up_ready, clear_table, remove_unit_uv, calc_table_ready}
use sysmaster.Job.Table.Settled.{without_unit, removed-IsQueued}
use sysmaster.Job.Table.Consistent.{IsConsistent}

pub new-IsConsistent : IsConsistent new_unit_table
unfolding get
new-IsConsistent = record {
  opened = record {
    queue = record { marked = λ u. refl; once_tree = tt; once_stack = tt; split = inl refl };
    known = λ u uv e d. cc;
  };
  clean = λ u uv e d. cc;
}

pub update_up_ready-IsConsistent :
    (t : JobUnitTable) → IsConsistent t → IsConsistent (update_up_ready t)
unfolding update_up_ready
update_up_ready-IsConsistent t k = record {
  opened = record {
    queue = record {
      marked = k.opened.queue.marked;
      once_tree = k.opened.queue.once_tree;
      once_stack = k.opened.queue.once_stack;
      split = k.opened.queue.split;
    };
    known = k.opened.known;
  };
  clean = k.clean;
}

pub clear_table-IsConsistent : (t : JobUnitTable) → IsConsistent (clear_table t)
unfolding clear_table
clear_table-IsConsistent t = new-IsConsistent

pub without_unit-IsConsistent :
    (t : JobUnitTable) (u : UnitId)
    → contains t.readys u ≡ false
    → IsConsistent t
    → IsConsistent (without_unit t u)
without_unit-IsConsistent t u off k = record {
  opened = record {
    queue = removed-IsQueued t u k.opened.queue off;
    known = λ v w f c. k.opened.known v w (ground (arith, f, get-remove t.t_data u v)) c;
  };
  clean = λ v w f c. k.clean v w (ground (arith, f, get-remove t.t_data u v)) c;
}

pub remove_unit_uv-IsConsistent :
    (t : JobUnitTable) (u : UnitId)
    → contains t.readys u ≡ false
    → IsConsistent t
    → IsConsistent (remove_unit_uv t u)
unfolding remove_unit_uv
remove_unit_uv-IsConsistent = without_unit-IsConsistent

stale :
    (t : JobUnitTable) (u : UnitId)
    → contains t.readys u ≡ true
    → (get (remove t.t_data u) u ≡ none) × (is_nil t.readys ≡ false)
stale t u on = (get-remove_self t.t_data u, stacked t.readys u on)
  where
    stacked : (l : List UnitId) (u : UnitId) → contains l u ≡ true → is_nil l ≡ false
    stacked [] u e = cc
    stacked (x ∷ l) u e = refl

remove_unit_uv-off :
    (t : JobUnitTable) (u : UnitId)
    → (b : Bool) → contains t.readys u ≡ b
    → IsConsistent (remove_unit_uv t u)
    → contains t.readys u ≡ false
unfolding remove_unit_uv
remove_unit_uv-off t u true on k = ground (arith, on, k.opened.queue.marked u, (stale t u on).0)
remove_unit_uv-off t u false off k = off

still_ready :
    (t : JobUnitTable) (u : UnitId)
    → (b : Bool) → contains t.readys u ≡ b
    → (contains t.readys u ≡ false) ⊎ (calc_table_ready (remove_unit_uv t u) ≡ t.sync)
unfolding remove_unit_uv calc_table_ready
still_ready t u false off = inl off
still_ready t u true on = inr (ground (arith, (stale t u on).1))

-- Removing a unit from a consistent table keeps it consistent exactly if the unit is not on the stack
-- `readys`. If it is, and the table is marked as in step, the table without the unit still says that
-- it is ready.
pub remove_unit_uv_lem :
    (t : JobUnitTable) (u : UnitId)
    → IsConsistent t
    → (IsConsistent (remove_unit_uv t u) ↔ (contains t.readys u ≡ false))
      × ((contains t.readys u ≡ false) ⊎ (calc_table_ready (remove_unit_uv t u) ≡ t.sync))
remove_unit_uv_lem t u k = (
  (remove_unit_uv-off t u (contains t.readys u) refl, λ off. remove_unit_uv-IsConsistent t u off k),
  still_ready t u (contains t.readys u) refl,
)
