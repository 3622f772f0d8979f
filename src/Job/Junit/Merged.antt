-- ===== src/Job/Junit/Merged.antt =====
-- core/bin/job/junit.rs: `JobUnitData::merge_suspends`, which commits a transaction's jobs to a unit.
use sysmaster.Base.{
  ℕ, true, ◌≡◌, ◌≢◌, refl, Option, none, some, List, [], ◌∷◌, ◌++◌, arith, HashMap, get, insert,
  get-insert, get-head, get-tail, IsUnique, values, if◌then◌else◌, nat_eq, Bool-cases, Option-cases,
  inl, inr, ◌==◌, sym, ◌∙◌, subst, ap,
}
use sysmaster.Job.Kind.{JobKind, kind_eq, wait, or_attr, job_is_basic_op}
use sysmaster.Job.Heap.{Heap, merge_ref}
use sysmaster.Job.Junit.{JobUnit}
use sysmaster.Job.Junit.Suspends.{insert_suspend, Union, union_one, union_all}
use sysmaster.Job.Junit.Kept.{IsKept}
use sysmaster.Job.Junit.Merge.{
  IsOffered, AreOffered, HasRunning, wait_ref_lem, merge_ref_lem, IsKept-Keeps, joined,
  insert_suspend_steps, joined-IsKept, not_trigger,
}

abbrev pub or_else {ℓ} : {A : Type ℓ} → Option A → Option A → Option A
or_else none b = b
or_else (some a) b = some a

union_all-add :
    (r : ℕ) (rs : List ℕ) (s : Union) {d : JobUnit} {h : Heap} {s' : Union}
    → get s.own.suspends (s.heap.job r).kind ≡ none
    → insert_suspend s.own r true s.heap ≡ some (d, h)
    → union_all rs (record s { own = d; heap = h; add_jobs = s.add_jobs ++ r ∷ [] }) ≡ some s'
    → union_all (r ∷ rs) s ≡ some s'
unfolding union_all union_one
union_all-add r rs s g i e = rw (g, i) e

union_all-update :
    (r : ℕ) (rs : List ℕ) (s : Union) {job : ℕ} {h : Heap} {s' : Union}
    → get s.own.suspends (s.heap.job r).kind ≡ some job
    → merge_ref s.heap job r ≡ some h
    → union_all rs (record s { heap = h; update_jobs = s.update_jobs ++ job ∷ [] }) ≡ some s'
    → union_all (r ∷ rs) s ≡ some s'
unfolding union_all union_one
union_all-update r rs s g i e = rw (g, i) e

-- What is known before the loop, of the jobs `rest` that are still to come.
pub record IsMerging (rest : HashMap JobKind ℕ) (d : JobUnit) (h : Heap) : Type 0 where
  pub unique : IsUnique rest
  pub offered : AreOffered h rest
  pub kept : IsKept d h
  pub busy : HasRunning d h

-- And after it: who waits is who waited, and the jobs that came for a kind that nobody waited for.
pub record IsUnion (rest : HashMap JobKind ℕ) (d : JobUnit) (h : Heap) (d' : JobUnit) (h' : Heap)
    : Type 0 where
  pub suspends : (k : JobKind) → get d'.suspends k ≡ or_else (get d.suspends k) (get rest k)
  pub kept : IsKept d' h'
  pub trigger : d'.trigger ≡ d.trigger
  pub busy : HasRunning d' h'

head-IsOffered :
    {k : JobKind} {r : ℕ} {rest : HashMap JobKind ℕ} {d : JobUnit} {h : Heap}
    → IsMerging ((k, r) ∷ rest) d h
    → IsOffered h k r
head-IsOffered {k} {r} {rest} m = m.offered k r (get-head k r rest)

tail-AreOffered :
    {k : JobKind} {r : ℕ} {rest : HashMap JobKind ℕ} {d : JobUnit} {h : Heap}
    → IsMerging ((k, r) ∷ rest) d h
    → AreOffered h rest
tail-AreOffered {k} {r} {rest} m j s e = m.offered j s (get-tail k r rest j m.unique e)

head_ne :
    {k : JobKind} {r : ℕ} {rest : HashMap JobKind ℕ} {d : JobUnit} {h : Heap} (j : JobKind) (s : ℕ)
    → IsMerging ((k, r) ∷ rest) d h
    → get rest j ≡ some s
    → s ≢ r
head_ne {k} {r} {rest} {h = h} j s m e same =
    let p : k ≡ j =
      sym (head-IsOffered m).kind
      ∙ ap (λ x. (h.job x).kind) (sym same)
      ∙ (tail-AreOffered m j s e).kind in
    let q : get rest j ≡ none = subst (λ x. get rest x ≡ none) p m.unique.0 in cc

add_next :
    (k : JobKind) (r : ℕ) (rest : HashMap JobKind ℕ) (d : JobUnit) (h h' : Heap)
    → ((s : ℕ) → h'.job s ≡ (if s == r then record (h.job r) { stage = wait } else h.job s))
    → IsMerging ((k, r) ∷ rest) d h
    → IsMerging rest (joined d k r) h'
add_next k r rest d h h' w m =
    let o = head-IsOffered m in
    record {
      unique = m.unique.1;
      offered = λ j s e.
          let f = tail-AreOffered m j s e in
          let same : h'.job s ≡ h.job s =
            ground (arith, w s, nat_eq.beq_iff s r, head_ne j s m e) in
          record {
            kind = ap (λ x. x.kind) same ∙ f.kind;
            fresh = ap (λ x. x.stage) same ∙ f.fresh;
            basic = f.basic;
          };
      kept =
          joined-IsKept d h' k r
            (IsKept-Keeps d h h'
              (λ s. (ground (arith, w s, nat_eq.beq_iff s r), λ x. ground (arith, w s))) m.kept)
            (record {
              kind = ground (arith, w r, o.kind);
              waits = ground (arith, w r, nat_eq.beq_iff r r);
              basic = o.basic;
            });
      busy = λ t e. ground (arith, m.busy t e, o.fresh, w t, nat_eq.beq_iff t r);
    }

update_next :
    (k : JobKind) (r job : ℕ) (rest : HashMap JobKind ℕ) (d : JobUnit) (h h' : Heap)
    → (h.job job).stage ≡ wait
    → ((s : ℕ)
        → h'.job s ≡ (
            if s == job
            then record (h.job job) { attr = or_attr (h.job job).attr (h.job r).attr }
            else h.job s))
    → IsMerging ((k, r) ∷ rest) d h
    → IsMerging rest d h'
update_next k r job rest d h h' waits w m = record {
  unique = m.unique.1;
  offered = λ j s e.
      let f = tail-AreOffered m j s e in
      record {
        kind = ground (arith, w s, f.kind, nat_eq.beq_iff s job);
        fresh = ground (arith, w s, f.fresh, nat_eq.beq_iff s job);
        basic = f.basic;
      };
  kept =
      IsKept-Keeps d h h'
        (λ s. (
          ground (arith, w s, nat_eq.beq_iff s job),
          λ x. ground (arith, w s, nat_eq.beq_iff s job),
        ))
        m.kept;
  busy = λ t e. ground (arith, m.busy t e, w t, nat_eq.beq_iff t job);
}

Union-unchanged :
    (k : JobKind) (r job : ℕ) (rest : HashMap JobKind ℕ) (m : HashMap JobKind ℕ)
    → get m k ≡ some job
    → (j : JobKind) → or_else (get m j) (get rest j) ≡ or_else (get m j) (get ((k, r) ∷ rest) j)
unfolding get
Union-unchanged k r job rest m e j = elim (Bool-cases (k == j)) [
  | inl same ↦
      let p : k ≡ j = (kind_eq.beq_iff k j).0 same in
      let q : get m j ≡ some job = subst (λ x. get m x ≡ some job) p e in ground (arith, q)
  | inr other ↦ ground arith
]

Union-joined :
    (k : JobKind) (r : ℕ) (rest : HashMap JobKind ℕ) (m : HashMap JobKind ℕ)
    → get m k ≡ none
    → get rest k ≡ none
    → (j : JobKind)
    → or_else (get (insert m k r) j) (get rest j) ≡ or_else (get m j) (get ((k, r) ∷ rest) j)
unfolding get
Union-joined k r rest m e e' j = elim (Bool-cases (k == j)) [
  | inl same ↦
      let p : k ≡ j = (kind_eq.beq_iff k j).0 same in
      let q : get m j ≡ none = subst (λ x. get m x ≡ none) p e in
      ground (arith, q, get-insert m k r j)
  | inr other ↦ ground (arith, get-insert m k r j)
]

added-IsUnion :
    (k : JobKind) (r : ℕ) (rest : HashMap JobKind ℕ) (d : JobUnit) (h h1 : Heap) (d' : JobUnit)
    (h' : Heap)
    → get d.suspends k ≡ none
    → IsMerging ((k, r) ∷ rest) d h
    → IsUnion rest (joined d k r) h1 d' h'
    → IsUnion ((k, r) ∷ rest) d h d' h'
added-IsUnion k r rest d h h1 d' h' e m n = record {
  suspends = λ j. n.suspends j ∙ Union-joined k r rest d.suspends e m.unique.0 j;
  kept = n.kept;
  trigger = n.trigger;
  busy = n.busy;
}

updated-IsUnion :
    (k : JobKind) (r job : ℕ) (rest : HashMap JobKind ℕ) (d : JobUnit) (h h1 : Heap) (d' : JobUnit)
    (h' : Heap)
    → get d.suspends k ≡ some job
    → IsUnion rest d h1 d' h'
    → IsUnion ((k, r) ∷ rest) d h d' h'
updated-IsUnion k r job rest d h h1 d' h' e n = record {
  suspends = λ j. n.suspends j ∙ Union-unchanged k r job rest d.suspends e j;
  kept = n.kept;
  trigger = n.trigger;
  busy = n.busy;
}

kind_get :
    (h : Heap) (d : JobUnit) {k : JobKind} {r : ℕ} {x : Option ℕ}
    → IsOffered h k r
    → get d.suspends k ≡ x
    → get d.suspends (h.job r).kind ≡ x
kind_get h d {x = x} o e = subst (λ j. get d.suspends j ≡ x) (sym o.kind) e

offered_basic :
    (h : Heap) {k : JobKind} {r : ℕ} → IsOffered h k r → job_is_basic_op (h.job r).kind ≡ true
offered_basic h o = subst (λ j. job_is_basic_op j ≡ true) (sym o.kind) o.basic

pub union_all_lem :
    (rest : HashMap JobKind ℕ) (s : Union)
    → IsMerging rest s.own s.heap
    → (s' : Union) × (union_all (values rest) s ≡ some s')
      × IsUnion rest s.own s.heap s'.own s'.heap
unfolding union_all get
union_all_lem [] s m =
    (s, refl, record { suspends = λ k. ground arith; kept = m.kept; trigger = refl; busy = m.busy })
union_all_lem ((k, r) ∷ rest) s m = elim (Option-cases (get s.own.suspends k)) [
  | inl e ↦
      let o = head-IsOffered m in
      let (h1, w, at) = wait_ref_lem s.heap r o.fresh (offered_basic s.heap o) in
      let i =
        insert_suspend_steps s.own r s.heap o.kind o.basic
          (not_trigger s.own s.heap r m.busy o.fresh) e w in
      let (s', eq, n) =
        union_all_lem rest
          (record s { own = joined s.own k r; heap = h1; add_jobs = s.add_jobs ++ r ∷ [] })
          (add_next k r rest s.own s.heap h1 at m) in
      (
        s',
        union_all-add r (values rest) s (kind_get s.heap s.own o e) i eq,
        added-IsUnion k r rest s.own s.heap h1 s'.own s'.heap e m n,
      )
  | inr (job, e) ↦
      let o = head-IsOffered m in
      let f = m.kept.filed k job e in
      let (h1, w, at) =
        merge_ref_lem s.heap job r f.waits (f.kind ∙ sym o.kind)
          (subst (λ j. job_is_basic_op j ≡ true) (sym f.kind) f.basic) in
      let (s', eq, n) =
        union_all_lem rest (record s { heap = h1; update_jobs = s.update_jobs ++ job ∷ [] })
          (update_next k r job rest s.own s.heap h1 f.waits at m) in
      (
        s',
        union_all-update r (values rest) s (kind_get s.heap s.own o e) w eq,
        updated-IsUnion k r job rest s.own s.heap h1 s'.own s'.heap e n,
      )
]
