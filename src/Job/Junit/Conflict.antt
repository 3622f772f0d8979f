-- ===== src/Job/Junit/Conflict.antt =====
-- core/bin/job/junit.rs: when the jobs that wait at a unit conflict, and when they can be replaced.
use sysmaster.Base.{
  ℕ, true, false, not, ◌||◌, ◌+◌, ◌≡◌, ◌≢◌, ◌↔◌, ◌⊎◌, refl, [], ◌∷◌, some, HashMap, contains_key,
  length, IsUnique, arith, ◌<◌, ltb, Bool-cases, inl, inr,
}
use sysmaster.Job.Kind.{
  JobKind, start, stop, reload, restart, verify, nop, try_reload, try_restart, reload_or_start,
  kind_eq,
}
use sysmaster.Job.Heap.{Heap}
use sysmaster.Job.Junit.{
  JobUnit, bool_to_usize, suspends_kind_len, num_others, is_suspends_conflict,
  is_suspends_conflict_with, is_suspends_irreversible, is_suspends_replace_with,
}

-- How many of the kinds but `Stop` and `Nop` wait.
abbrev others : HashMap JobKind ℕ → ℕ
others m =
    bool_to_usize (contains_key m start)
    + bool_to_usize (contains_key m reload)
    + bool_to_usize (contains_key m restart)
    + bool_to_usize (contains_key m verify)
    + bool_to_usize (contains_key m try_reload)
    + bool_to_usize (contains_key m try_restart)
    + bool_to_usize (contains_key m reload_or_start)

length-IsUnique :
    (m : HashMap JobKind ℕ)
    → IsUnique m
    → length m ≡ others m + bool_to_usize (contains_key m stop) + bool_to_usize (contains_key m nop)
unfolding contains_key
length-IsUnique [] h = refl
length-IsUnique ((start, v) ∷ m) h = ground (arith, length-IsUnique m h.1)
length-IsUnique ((_, v) ∷ m) h = ground (arith, length-IsUnique m h.1)

num_others-eq-others : (d : JobUnit) → IsUnique d.suspends → num_others d ≡ others d.suspends
unfolding num_others
num_others-eq-others d h = omega (arith, length-IsUnique d.suspends h)

-- A job of this kind waits at the unit.
abbrev pub Waits : JobUnit → JobKind → Type 0
Waits d k = contains_key d.suspends k ≡ true

others-pos :
    (m : HashMap JobKind ℕ) (k : JobKind)
    → k ≢ stop
    → k ≢ nop
    → contains_key m k ≡ true
    → 0 < others m
others-pos m start _ _ h = ground arith
others-pos m _ ne ne' h = ground arith

-- The first of the kinds that count, by a test.
find_other :
    (m : HashMap JobKind ℕ)
    → 0 < others m
    → (k : JobKind) × (k ≢ stop) × (k ≢ nop) × (contains_key m k ≡ true)
find_other m h = elim (Bool-cases (contains_key m start)) [
  | inl e ↦ (start, λ x. cc, λ x. cc, e)
  | inr e0 ↦ elim (Bool-cases (contains_key m reload)) [
    | inl e ↦ (reload, λ x. cc, λ x. cc, e)
    | inr e1 ↦ elim (Bool-cases (contains_key m restart)) [
      | inl e ↦ (restart, λ x. cc, λ x. cc, e)
      | inr e2 ↦ elim (Bool-cases (contains_key m verify)) [
        | inl e ↦ (verify, λ x. cc, λ x. cc, e)
        | inr e3 ↦ elim (Bool-cases (contains_key m try_reload)) [
          | inl e ↦ (try_reload, λ x. cc, λ x. cc, e)
          | inr e4 ↦ elim (Bool-cases (contains_key m try_restart)) [
            | inl e ↦ (try_restart, λ x. cc, λ x. cc, e)
            | inr e5 ↦ (reload_or_start, λ x. cc, λ x. cc, ground arith)
          ]
        ]
      ]
    ]
  ]
]

-- Over unique kinds, the jobs that wait at a unit conflict exactly if a stop waits beside a kind that
-- is neither stop nor nop.
pub is_suspends_conflict_lem :
    (d : JobUnit)
    → IsUnique d.suspends
    → (is_suspends_conflict d ≡ true)
      ↔ Waits d stop × ((k : JobKind) × (k ≢ stop) × (k ≢ nop) × Waits d k)
unfolding is_suspends_conflict suspends_kind_len
is_suspends_conflict_lem d u = (
  λ h. (ground arith, find_other d.suspends (ground (arith, num_others-eq-others d u))),
  λ (s, (k, ne, ne', w)).
      ground (arith, num_others-eq-others d u, others-pos d.suspends k ne ne' w),
)

-- Two units' jobs conflict with each other exactly if a stop waits at one of them, and at one of
-- them a kind that is neither stop nor nop.
pub is_suspends_conflict_with_lem :
    (d o : JobUnit)
    → IsUnique d.suspends
    → IsUnique o.suspends
    → (is_suspends_conflict_with d o ≡ true)
      ↔ (Waits d stop ⊎ Waits o stop)
        × ((k : JobKind) × (k ≢ stop) × (k ≢ nop) × (Waits d k ⊎ Waits o k))
unfolding is_suspends_conflict_with suspends_kind_len
is_suspends_conflict_with_lem d o u v = (
  λ h. (
    ground arith,
    elim (Bool-cases (ltb 0 (num_others d))) [
      | inl some_own ↦
          let (k, ne, ne', w) = find_other d.suspends (ground (arith, num_others-eq-others d u)) in
          (k, ne, ne', inl w)
      | inr no_own ↦
          let (k, ne, ne', w) = find_other o.suspends (ground (arith, num_others-eq-others o v)) in
          (k, ne, ne', inr w)
    ],
  ),
  λ (s, (k, ne, ne', w)). elim w [
    | inl own ↦ ground (arith, num_others-eq-others d u, others-pos d.suspends k ne ne' own)
    | inr their ↦ ground (arith, num_others-eq-others o v, others-pos o.suspends k ne ne' their)
  ],
)

-- Of two units without a conflict of their own, the jobs of the first can be replaced by those of
-- the second exactly if the two do not conflict, or no job of the first is irreversible.
pub is_suspends_replace_with_lem :
    (d o : JobUnit) (h : Heap)
    → is_suspends_conflict d ≡ false
    → is_suspends_conflict o ≡ false
    → is_suspends_replace_with d o h
      ≡ some (not (is_suspends_conflict_with d o) || not (is_suspends_irreversible d h))
unfolding is_suspends_replace_with is_suspends_conflict is_suspends_conflict_with suspends_kind_len
is_suspends_replace_with_lem d o h c c' = ground arith
