-- ===== src/Base/Hash.antt =====
-- A `HashMap` as the list of its entries in iteration order. `insert` writes in place if the key
-- is there, and adds an entry at the end if not.
use mathlib.Core.Path.{◌≡◌, refl, subst}
use mathlib.Core.Logic.{inl, inr}
use mathlib.Core.Bool.{Bool, true}
use mathlib.Core.Option.{Option, none, some}
use mathlib.Core.List.{List, [], ◌∷◌}
use native.Mathlib.Omega.{arith}
use sysmaster.Base.Tests.{Eq, ◌==◌, ==→eq, if◌then◌else◌, is_some, Bool-cases}
use sysmaster.Base.Lists.{contains}

abbrev pub HashMap {ℓ κ} : Type ℓ → Type κ → Type (ℓ ⊔ κ)
HashMap K V = List (K × V)

module _ {ℓ κ} {K : Type ℓ} {V : Type κ} where
  abbrev pub keys : HashMap K V → List K
  keys [] = []
  keys ((k, v) ∷ m) = k ∷ keys m

  abbrev pub values : HashMap K V → List V
  values [] = []
  values ((k, v) ∷ m) = v ∷ values m

module _ {ℓ κ} {K : Type ℓ} {V : Type κ} ⦃e : Eq K⦄ where
  unfoldable pub get : HashMap K V → K → Option V
  get [] k = none
  get ((j, v) ∷ m) k = if j == k then some v else get m k

  unfoldable pub insert : HashMap K V → K → V → HashMap K V
  insert [] k v = (k, v) ∷ []
  insert ((j, w) ∷ m) k v = if j == k then (j, v) ∷ m else (j, w) ∷ insert m k v

  unfoldable pub remove : HashMap K V → K → HashMap K V
  remove [] k = []
  remove ((j, v) ∷ m) k = let rest = remove m k in if j == k then rest else (j, v) ∷ rest

  unfoldable pub contains_key : HashMap K V → K → Bool
  unfolding get
  contains_key m k = is_some (get m k)

  -- No key twice.
  abbrev pub IsUnique : HashMap K V → Type κ
  IsUnique [] = Unit
  IsUnique ((k, v) ∷ m) = (get m k ≡ none) × IsUnique m

  pub get-insert :
      (m : HashMap K V) (k : K) (v : V) (j : K)
      → get (insert m k v) j ≡ (if k == j then some v else get m j)
  unfolding get insert
  get-insert [] k v j = refl
  get-insert ((i, w) ∷ m) k v j =
      ground (arith, get-insert m k v j, e.beq_iff i k, e.beq_iff i j, e.beq_iff k j)

  pub get-remove :
      (m : HashMap K V) (k j : K) → get (remove m k) j ≡ (if k == j then none else get m j)
  unfolding get remove
  get-remove [] k j = ground arith
  get-remove ((i, w) ∷ m) k j =
      ground (arith, get-remove m k j, e.beq_iff i k, e.beq_iff i j, e.beq_iff k j)

  pub get-insert_self : (m : HashMap K V) (k : K) (v : V) → get (insert m k v) k ≡ some v
  get-insert_self m k v = ground (arith, get-insert m k v k, e.beq_iff k k)

  pub get-remove_self : (m : HashMap K V) (k : K) → get (remove m k) k ≡ none
  get-remove_self m k = ground (arith, get-remove m k k, e.beq_iff k k)

  pub insert-IsUnique : (m : HashMap K V) (k : K) (v : V) → IsUnique m → IsUnique (insert m k v)
  unfolding get insert
  insert-IsUnique [] k v h = (refl, tt)
  insert-IsUnique ((j, w) ∷ m) k v h =
      ground (arith, insert-IsUnique m k v h.1, get-insert m k v j, e.beq_iff j k, e.beq_iff k j)

  pub remove-IsUnique : (m : HashMap K V) (k : K) → IsUnique m → IsUnique (remove m k)
  unfolding get remove
  remove-IsUnique [] k h = tt
  remove-IsUnique ((j, w) ∷ m) k h =
      ground (arith, remove-IsUnique m k h.1, get-remove m k j, e.beq_iff j k, e.beq_iff k j)

  pub get-head : (k : K) (v : V) (m : HashMap K V) → get ((k, v) ∷ m) k ≡ some v
  unfolding get
  get-head k v m = ground (arith, e.beq_iff k k)

  pub get-tail :
      (k : K) (v : V) (m : HashMap K V) (j : K) {w : V}
      → IsUnique ((k, v) ∷ m)
      → get m j ≡ some w
      → get ((k, v) ∷ m) j ≡ some w
  unfolding get
  get-tail k v m j u h = ground (arith, e.beq_iff k j)

  pub key_of_value :
      ⦃f : Eq V⦄ (m : HashMap K V) (v : V)
      → IsUnique m
      → contains (values m) v ≡ true
      → (k : K) × (get m k ≡ some v)
  key_of_value [] v u c = cc
  key_of_value ((k, w) ∷ m) v u c = elim (Bool-cases (w == v)) [
    | inl same ↦ (k, subst (λ x. get ((k, w) ∷ m) k ≡ some x) (==→eq w v same) (get-head k w m))
    | inr other ↦ let (j, h) = key_of_value m v u.1 (ground arith) in (j, get-tail k w m j u h)
  ]
