-- ===== src/Job/Junit/Kept.antt =====
-- core/bin/job/junit.rs: what holds of the jobs that wait at a unit, between two calls.
use sysmaster.Base.{
  IsDistinct, ℕ, true, ◌≡◌, ◌≢◌, none, some, [], ◌∷◌, nat_eq, contains, HashMap, get, values,
  IsUnique, get-head, get-tail, key_of_value, not_true, subst, sym, ◌∙◌,
}
use sysmaster.Job.Kind.{JobKind, kind_eq, wait, job_is_basic_op}
use sysmaster.Job.Heap.{Heap}
use sysmaster.Job.Heap.Finish.{AreWaiting}
use sysmaster.Job.Junit.{JobUnit}

-- Each job stands under its own kind, which is basic, and waits.
pub record IsFiled (h : Heap) (k : JobKind) (r : ℕ) : Type 0 where
  pub kind : (h.job r).kind ≡ k
  pub waits : (h.job r).stage ≡ wait
  pub basic : job_is_basic_op k ≡ true

abbrev pub AreFiled : Heap → HashMap JobKind ℕ → Type 0
AreFiled h m = (k : JobKind) (r : ℕ) → get m k ≡ some r → IsFiled h k r

pub record IsKept (d : JobUnit) (h : Heap) : Type 0 where
  pub unique : IsUnique d.suspends
  pub filed : AreFiled h d.suspends

tail-AreFiled :
    (h : Heap) (k : JobKind) (r : ℕ) (m : HashMap JobKind ℕ)
    → IsUnique ((k, r) ∷ m)
    → AreFiled h ((k, r) ∷ m)
    → AreFiled h m
tail-AreFiled h k r m u f j s e = f j s (get-tail k r m j u e)

head-IsFiled :
    (h : Heap) (k : JobKind) (r : ℕ) (m : HashMap JobKind ℕ)
    → AreFiled h ((k, r) ∷ m)
    → IsFiled h k r
head-IsFiled h k r m f = f k r (get-head k r m)

head_apart :
    (h : Heap) (k : JobKind) (r : ℕ) (m : HashMap JobKind ℕ)
    → IsUnique ((k, r) ∷ m)
    → AreFiled h ((k, r) ∷ m)
    → contains (values m) r ≢ true
head_apart h k r m u f c =
    let (j, e) = key_of_value m r u.1 c in
    let same : k ≡ j = sym (head-IsFiled h k r m f).kind ∙ (f j r (get-tail k r m j u e)).kind in
    let none_there : get m j ≡ none = subst (λ x. get m x ≡ none) same u.0 in cc

pub values-IsDistinct :
    (h : Heap) (m : HashMap JobKind ℕ) → IsUnique m → AreFiled h m → IsDistinct (values m)
values-IsDistinct h [] u f = tt
values-IsDistinct h ((k, r) ∷ m) u f =
    (not_true (head_apart h k r m u f), values-IsDistinct h m u.1 (tail-AreFiled h k r m u f))

pub values-AreWaiting :
    (h : Heap) (m : HashMap JobKind ℕ) → IsUnique m → AreFiled h m → AreWaiting h (values m)
values-AreWaiting h [] u f = tt
values-AreWaiting h ((k, r) ∷ m) u f =
    ((head-IsFiled h k r m f).waits, values-AreWaiting h m u.1 (tail-AreFiled h k r m u f))
