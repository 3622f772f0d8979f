-- ===== src/Job/Alloc.antt =====
-- core/bin/job/alloc.rs: the allocation of job ids. The loop takes fuel.
pub mod Fresh
use sysmaster.Base.{
  ℕ, suc, zero, ◌+◌, ◌%◌, Option, none, some, List, [], ◌∷◌, contains, nat_eq, if◌then◌else◌,
}

-- `JobAllocData`: the ids given away, and the last of them.
pub record JobAlloc : Type 0 where
  pub ids : List ℕ
  pub last_id : ℕ

abbrev pub new_alloc : JobAlloc
new_alloc = record { ids = []; last_id = 0 }

-- `last_id.overflowing_add(1)` on a `u32`
abbrev pub next_id : ℕ → ℕ
next_id last = (last + 1) % 4294967296

-- `ids.insert(id)`: is it new? `none` is the end of the fuel.
unfoldable pub alloc_id : ℕ → JobAlloc → Option (ℕ × JobAlloc)
alloc_id zero a = none
alloc_id (suc fuel) a =
    let id = next_id a.last_id in
    let later = alloc_id fuel (record a { last_id = id }) in
    if contains a.ids id then later else some (id, record { ids = id ∷ a.ids; last_id = id })
