-- ===== src/Job/Alloc/Fresh.antt =====
-- core/bin/job/alloc.rs: the loop ends with an id that nobody has.
use sysmaster.Base.{
  ℕ, suc, zero, ◌+◌, ◌%◌, ◌≤◌, ◌<◌, ◌≡◌, ◌≢◌, refl, some, List, [], ◌∷◌, contains, nat_eq,
  if◌then◌else◌, true, false, length, arith, ◌==◌, Bool-cases, inl, inr, subst, sym,
}
use sysmaster.Job.Alloc.{JobAlloc, next_id, alloc_id}

without : ℕ → List ℕ → List ℕ
without x [] = []
without x (y ∷ ys) = let rest = without x ys in if y == x then rest else y ∷ rest

length-without_le : (x : ℕ) (ys : List ℕ) → length (without x ys) ≤ length ys
unfolding without
length-without_le x [] = omega arith
length-without_le x (y ∷ ys) = ground (arith, length-without_le x ys)

length-without_lt : (x : ℕ) (ys : List ℕ) → contains ys x ≡ true → length (without x ys) < length ys
unfolding without
length-without_lt x [] c = cc
length-without_lt x (y ∷ ys) c = elim (Bool-cases (y == x)) [
  | inl same ↦ ground (arith, length-without_le x ys)
  | inr other ↦ ground (arith, length-without_lt x ys (ground arith))
]

contains-without : (x z : ℕ) (ys : List ℕ) → z ≢ x → contains (without x ys) z ≡ contains ys z
unfolding without
contains-without x z [] ne = refl
contains-without x z (y ∷ ys) ne =
    ground (arith, contains-without x z ys ne, nat_eq.beq_iff y x, nat_eq.beq_iff y z)

plus_zero : (n : ℕ) → n ≡ n + 0
plus_zero n = omega arith

-- Of `n + 1` ids in a row one is not in a list of at most `n`.
some_fresh :
    (n : ℕ) (xs : List ℕ) (last : ℕ)
    → length xs ≤ n
    → n < 4294967296
    → (i : ℕ) × (i ≤ n) × (contains xs ((last + 1 + i) % 4294967296) ≡ false)
some_fresh zero [] last le lt = (0, omega arith, refl)
some_fresh zero (x ∷ xs) last le lt = absurd (omega (arith, le))
some_fresh (suc n) xs last le lt = elim (Bool-cases (contains xs (next_id last))) [
  | inl c ↦
      let (i, j, f) =
        some_fresh n (without (next_id last) xs) (last + 1)
          (omega (arith, length-without_lt (next_id last) xs c)) (omega arith) in
      let ne : ((last + 1 + 1 + i) % 4294967296) ≢ next_id last = λ e. omega arith in
      (
        suc i,
        omega arith,
        ground (arith, contains-without (next_id last) ((last + 1 + 1 + i) % 4294967296) xs ne),
      )
  | inr c ↦
      (0, omega arith, subst (λ x. contains xs (x % 4294967296) ≡ false) (plus_zero (last + 1)) c)
]

-- What an allocation leaves: the id is new, it fits, and it is the last of the ids.
pub record IsAllocated (a : JobAlloc) (id : ℕ) (a' : JobAlloc) : Type 0 where
  pub fresh : contains a.ids id ≡ false
  pub bound : id < 4294967296
  pub ids : a'.ids ≡ id ∷ a.ids
  pub last_id : a'.last_id ≡ id

-- The loop, with this fuel, allocates from this state.
abbrev Allocates : ℕ → JobAlloc → Type 0
Allocates fuel a =
    (id : ℕ) × (a' : JobAlloc) × (alloc_id fuel a ≡ some (id, a')) × IsAllocated a id a'

alloc_id_now :
    (fuel : ℕ) (a : JobAlloc) → contains a.ids (next_id a.last_id) ≡ false → Allocates (suc fuel) a
unfolding alloc_id
alloc_id_now fuel a f = (
  next_id a.last_id,
  record { ids = next_id a.last_id ∷ a.ids; last_id = next_id a.last_id },
  rw f refl,
  record { fresh = f; bound = omega arith; ids = refl; last_id = refl },
)

alloc_id_later :
    (fuel : ℕ) (a : JobAlloc)
    → contains a.ids (next_id a.last_id) ≡ true
    → Allocates fuel (record a { last_id = next_id a.last_id })
    → Allocates (suc fuel) a
unfolding alloc_id
alloc_id_later fuel a t (id, a', e, n) =
    (id, a', rw t e, record { fresh = n.fresh; bound = n.bound; ids = n.ids; last_id = n.last_id })

mod_next : (n i : ℕ) → (n + 1 + suc i) % 4294967296 ≡ (next_id n + 1 + i) % 4294967296
mod_next n i = omega arith

alloc_id_reaches :
    (i fuel : ℕ) (a : JobAlloc)
    → i < fuel
    → contains a.ids ((a.last_id + 1 + i) % 4294967296) ≡ false
    → Allocates fuel a
alloc_id_reaches i zero a lt c = absurd (omega (arith, lt))
alloc_id_reaches zero (suc fuel) a lt c =
    alloc_id_now fuel a
      (subst (λ x. contains a.ids (x % 4294967296) ≡ false) (sym (plus_zero (a.last_id + 1))) c)
alloc_id_reaches (suc i) (suc fuel) a lt c =
    elim (Bool-cases (contains a.ids (next_id a.last_id))) [
      | inr f ↦ alloc_id_now fuel a f
      | inl t ↦ alloc_id_later fuel a t (
          alloc_id_reaches i fuel (record a { last_id = next_id a.last_id }) (omega arith)
            (subst (λ x. contains a.ids x ≡ false) (mod_next a.last_id i) c))
    ]

-- While fewer than 2^32 ids were given away, the loop ends after at most one round more than there
-- are ids, with a `u32` that was not given away before; it is added to the ids and becomes the
-- last.
pub alloc_id_lem :
    (a : JobAlloc)
    → length a.ids < 4294967296
    → (id : ℕ) × (a' : JobAlloc) × (alloc_id (length a.ids + 1) a ≡ some (id, a'))
      × IsAllocated a id a'
alloc_id_lem a lt =
    let (i, le, f) = some_fresh (length a.ids) a.ids a.last_id (omega arith) lt in
    alloc_id_reaches i (length a.ids + 1) a (omega (arith, le)) f
