-- ===== src/Base/Sets.antt =====
-- Sets as lists, and lists with no element twice.
use mathlib.Core.Path.{◌≡◌}
use mathlib.Core.Logic.{inl, inr}
use mathlib.Core.Bool.{false, ◌||◌}
use mathlib.Core.List.{List, [], ◌∷◌}
use native.Mathlib.Omega.{arith}
use sysmaster.Base.Tests.{Eq, ◌==◌, if◌then◌else◌, Bool-cases}
use sysmaster.Base.Lists.{contains}

module _ {ℓ} {K : Type ℓ} ⦃e : Eq K⦄ where
  abbrev pub IsDistinct : List K → Type 0
  IsDistinct [] = Unit
  IsDistinct (k ∷ ks) = (contains ks k ≡ false) × IsDistinct ks

  abbrev pub set_insert : List K → K → List K
  set_insert s k = if contains s k then s else k ∷ s

  unfoldable pub set_remove : List K → K → List K
  set_remove [] k = []
  set_remove (j ∷ s) k = let rest = set_remove s k in if j == k then rest else j ∷ rest

  pub contains-set_remove :
      (s : List K) (k j : K)
      → contains (set_remove s k) j ≡ (if k == j then false else contains s j)
  unfolding set_remove
  contains-set_remove [] k j = ground arith
  contains-set_remove (i ∷ s) k j =
      ground (arith, contains-set_remove s k j, e.beq_iff i k, e.beq_iff i j, e.beq_iff k j)

  pub contains-set_insert :
      (s : List K) (k j : K) → contains (set_insert s k) j ≡ (k == j || contains s j)
  contains-set_insert s k j = elim (Bool-cases (k == j)) [
    | inl same ↦ ground (arith, (e.beq_iff k j).0 same)
    | inr other ↦ ground arith
  ]

  pub set_remove-IsDistinct : (s : List K) (k : K) → IsDistinct s → IsDistinct (set_remove s k)
  unfolding set_remove
  set_remove-IsDistinct [] k d = tt
  set_remove-IsDistinct (i ∷ s) k d =
      ground (arith, set_remove-IsDistinct s k d.1, contains-set_remove s k i)
