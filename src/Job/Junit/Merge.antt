-- ===== src/Job/Junit/Merge.antt =====
-- core/bin/job/junit.rs: one job of a transaction that comes to a unit, new or beside one of its kind.
use sysmaster.Base.{
  ℕ, true, false, ◌≡◌, refl, none, some, arith, HashMap, get, insert, get-insert, insert-IsUnique,
  if◌then◌else◌, nat_eq, Bool-cases, Option-cases, inl, inr, ◌==◌, ◌∙◌, subst,
}
use sysmaster.Job.Kind.{JobKind, kind_eq, init, wait, running, or_attr, job_is_basic_op}
use sysmaster.Job.Rentry.{JobRe, key_eq}
use sysmaster.Job.Entry.{Job}
use sysmaster.Job.Heap.{Heap, write, wait_ref, merge_ref}
use sysmaster.Job.Junit.{JobUnit, update_ready, is_trigger}
use sysmaster.Job.Junit.Suspends.{insert_suspend}
use sysmaster.Job.Junit.Kept.{IsKept, IsFiled}

-- A job of a transaction: it stands under its own kind, which is basic, and was not started.
pub record IsOffered (h : Heap) (k : JobKind) (r : ℕ) : Type 0 where
  pub kind : (h.job r).kind ≡ k
  pub fresh : (h.job r).stage ≡ init
  pub basic : job_is_basic_op k ≡ true

abbrev pub AreOffered : Heap → HashMap JobKind ℕ → Type 0
AreOffered h m = (k : JobKind) (r : ℕ) → get m k ≡ some r → IsOffered h k r

-- The trigger of a unit, if it has one, runs.
abbrev pub HasRunning : JobUnit → Heap → Type 0
HasRunning d h = (t : ℕ) → d.trigger ≡ some t → (h.job t).stage ≡ running

-- The database with the suspend entry of a job.
abbrev pub filed_in : Heap → Job → JobRe
filed_in h j = record (h.rentry) {
  suspends = insert h.rentry.suspends (record { unit_id = j.unit; kind = j.kind }) j.attr;
}

pub wait_ref_lem :
    (h : Heap) (r : ℕ)
    → (h.job r).stage ≡ init
    → job_is_basic_op (h.job r).kind ≡ true
    → (h' : Heap) × (wait_ref h r ≡ some h')
      × ((s : ℕ) → h'.job s ≡ (if s == r then record (h.job r) { stage = wait } else h.job s))
unfolding wait_ref
wait_ref_lem h r i b =
    (write h r (record (h.job r) { stage = wait }) (filed_in h (h.job r)), ground arith, λ s. refl)

pub merge_ref_lem :
    (h : Heap) (r o : ℕ)
    → (h.job r).stage ≡ wait
    → (h.job r).kind ≡ (h.job o).kind
    → job_is_basic_op (h.job r).kind ≡ true
    → (h' : Heap) × (merge_ref h r o ≡ some h')
      × ((s : ℕ)
          → h'.job s ≡ (
              if s == r
              then record (h.job r) { attr = or_attr (h.job r).attr (h.job o).attr }
              else h.job s))
unfolding merge_ref
merge_ref_lem h r o w k b =
    let j : Job = record (h.job r) { attr = or_attr (h.job r).attr (h.job o).attr } in
    (
      write h r j (filed_in h j),
      ground (arith, kind_eq.beq_iff (h.job r).kind (h.job o).kind),
      λ s. refl,
    )

-- A change of one job that keeps its kind, and that it waits if it did.
abbrev pub Keeps : Heap → Heap → Type 0
Keeps h h' =
    (s : ℕ)
    → ((h'.job s).kind ≡ (h.job s).kind) × ((h.job s).stage ≡ wait → (h'.job s).stage ≡ wait)

pub IsKept-Keeps : (d : JobUnit) (h h' : Heap) → Keeps h h' → IsKept d h → IsKept d h'
IsKept-Keeps d h h' keeps kept = record {
  unique = kept.unique;
  filed = λ k r e.
      let f = kept.filed k r e in
      record { kind = (keeps r).0 ∙ f.kind; waits = (keeps r).1 f.waits; basic = f.basic };
}

-- The unit after one more job came to wait.
abbrev pub joined : JobUnit → JobKind → ℕ → JobUnit
joined d k r = record d {
  suspends = insert d.suspends k r;
  order = false;
  dirty = true;
  ready = false;
}

pub insert_suspend_steps :
    (d : JobUnit) (r : ℕ) (h : Heap) {h' : Heap} {k : JobKind}
    → (h.job r).kind ≡ k
    → job_is_basic_op k ≡ true
    → is_trigger d r ≡ false
    → get d.suspends k ≡ none
    → wait_ref h r ≡ some h'
    → insert_suspend d r true h ≡ some (joined d k r, h')
unfolding insert_suspend update_ready
insert_suspend_steps d r h ek b t g w = ground arith

pub joined-IsKept :
    (d : JobUnit) (h : Heap) (k : JobKind) (r : ℕ)
    → IsKept d h
    → IsFiled h k r
    → IsKept (joined d k r) h
joined-IsKept d h k r kept f = record {
  unique = insert-IsUnique d.suspends k r kept.unique;
  filed = λ j s e. elim (Bool-cases (k == j)) [
    | inl same ↦
        let p : k ≡ j = (kind_eq.beq_iff k j).0 same in
        let q : r ≡ s = ground (arith, get-insert d.suspends k r j) in
        subst (λ x. IsFiled h x s) p (subst (IsFiled h k) q f)
    | inr other ↦ kept.filed j s (ground (arith, get-insert d.suspends k r j))
  ];
}

pub not_trigger :
    (d : JobUnit) (h : Heap) (r : ℕ)
    → HasRunning d h
    → (h.job r).stage ≡ init
    → is_trigger d r ≡ false
unfolding is_trigger
not_trigger d h r run i = elim (Option-cases d.trigger) [
  | inl e ↦ ground arith
  | inr (t, e) ↦ ground (arith, run t e, nat_eq.beq_iff t r)
]
