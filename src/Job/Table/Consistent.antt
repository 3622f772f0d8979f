-- ===== src/Job/Table/Consistent.antt =====
-- core/bin/job/table.rs: adding jobs to a table keeps the queue and the marks of the units consistent.
use sysmaster.Base.{
  ℕ, Bool, true, false, ◌||◌, ◌≡◌, refl, subst, List, [], ◌∷◌, Option, none, some, HashMap, get,
  get-insert, ◌==◌, string_eq, arith, inl, inr, Bool-cases, Option-cases, bind-some, assert,
  is_some, else-branch, keys,
}
use sysmaster.Job.Rentry.{UnitId}
use sysmaster.Job.Heap.{Heap}
use sysmaster.Job.Junit.{JobUnit, new_unit}
use sysmaster.Job.Junit.Suspends as Suspends
use sysmaster.Job.Junit.Trigger as Trigger
use sysmaster.Job.Table.{JobUnitTable, put_uv, uv_pad}
use sysmaster.Job.Table.Queue.{up_of, IsQueued-put}
use sysmaster.Job.Table.Units.{insert_suspend_uv, insert_trigger_uv}
use sysmaster.Job.Table.Entries.{
  isolate_one, isolate_units, isolate_suspends_uv, merge_units, merge_suspends_uv, Merged,
}
use sysmaster.Job.Table.Touched.{
  insert_suspend-IsMarked, insert_trigger-IsMarked, flush_suspends-IsMarked,
}
use sysmaster.Job.Table.Triggering.{merge_suspends-IsMerged, IsMerged}
use sysmaster.Job.Table.Synced.{IsOpen}

-- The queue is well-formed, a clean unit is marked exactly if it is ready, and in a table that is marked
-- as in step every unit is clean.
pub record IsConsistent (t : JobUnitTable) : Type 0 where
  pub opened : IsOpen t
  pub clean :
      (u : UnitId) (uv : JobUnit) → get t.t_data u ≡ some uv → t.sync ≡ true → uv.dirty ≡ false

pub open-IsConsistent : (t : JobUnitTable) → IsOpen t → IsConsistent (record t { sync = false })
open-IsConsistent t o = record {
  opened = record {
    queue = record {
      marked = o.queue.marked;
      once_tree = o.queue.once_tree;
      once_stack = o.queue.once_stack;
      split = o.queue.split;
    };
    known = o.known;
  };
  clean = λ u uv e s. cc;
}

-- A unit's record may be written if it keeps its mark, and is dirty or in step.
pub put-IsOpen :
    (t : JobUnitTable) (u : UnitId) (uv : JobUnit)
    → IsOpen t
    → up_of (get t.t_data u) ≡ uv.up_ready
    → (uv.dirty ≡ false → uv.up_ready ≡ uv.ready)
    → IsOpen (put_uv t u uv)
put-IsOpen t u uv o e k = record {
  queue = IsQueued-put t u uv o.queue e;
  known = λ v w f d. elim (Bool-cases (u == v)) [
    | inl same ↦ ground (arith, same, f, d, k, get-insert t.t_data u uv v)
    | inr other ↦ o.known v w (ground (arith, other, f, get-insert t.t_data u uv v)) d
  ];
}

-- The record that `get_mut_uv_pad` gives.
record IsPadded (t : JobUnitTable) (u : UnitId) : Type 0 where
  mark : up_of (get t.t_data u) ≡ (uv_pad t u).up_ready
  known : (uv_pad t u).dirty ≡ false → (uv_pad t u).up_ready ≡ (uv_pad t u).ready

pad-IsPadded : (t : JobUnitTable) (u : UnitId) → IsOpen t → IsPadded t u
unfolding uv_pad new_unit
pad-IsPadded t u o = elim (Option-cases (get t.t_data u)) [
  | inl e ↦ record { mark = ground (arith, e); known = λ d. ground (arith, e) }
  | inr (uv, e) ↦ record {
    mark = ground (arith, e);
    known = λ d. ground (arith, e, d, o.known u uv e);
  }
]

pub insert_suspend_uv-IsConsistent :
    (t t' : JobUnitTable) (r : ℕ) (h h' : Heap)
    → IsOpen t
    → insert_suspend_uv t r h ≡ some (t', h')
    → IsConsistent t'
unfolding insert_suspend_uv
insert_suspend_uv-IsConsistent t t' r h h' o e =
    let u = (h.job r).unit in
    let ((uv, h1), a, e1) = bind-some (Suspends.insert_suspend (uv_pad t u) r false h) _ _ e in
    let (x, a1, e2) = bind-some (assert uv.dirty) _ _ e1 in
    let m = insert_suspend-IsMarked (uv_pad t u) uv r false h h1 a in
    subst IsConsistent (ground (arith, e2)) (
      open-IsConsistent (put_uv t u uv) (
        put-IsOpen t u uv o (ground (arith, m.up, (pad-IsPadded t u o).mark))
          (λ d. ground (arith, d, m.dirt))))

pub insert_trigger_uv-IsConsistent :
    (t t' : JobUnitTable) (r : ℕ) (h : Heap)
    → IsOpen t
    → insert_trigger_uv t r h ≡ some t'
    → IsConsistent t'
unfolding insert_trigger_uv
insert_trigger_uv-IsConsistent t t' r h o e =
    let u = (h.job r).unit in
    let (uv, a, e1) = bind-some (Trigger.insert_trigger (uv_pad t u) r h) _ _ e in
    let (x, a1, e2) = bind-some (assert uv.dirty) _ _ e1 in
    let m = insert_trigger-IsMarked (uv_pad t u) uv r h a in
    subst IsConsistent (ground (arith, e2)) (
      open-IsConsistent (put_uv t u uv) (
        put-IsOpen t u uv o (ground (arith, m.up, (pad-IsPadded t u o).mark))
          (λ d. ground (arith, d, m.dirt))))

merged-IsOpen :
    (t : JobUnitTable) (u : UnitId) (uv : JobUnit)
    → IsOpen t
    → IsMerged (uv_pad t u) uv
    → IsOpen (put_uv t u uv)
merged-IsOpen t u uv o m =
    put-IsOpen t u uv o (ground (arith, m.up, (pad-IsPadded t u o).mark)) λ d. elim m.dirt [
      | inl b ↦ ground (arith, d, b)
      | inr same ↦ ground (arith, d, same, (pad-IsPadded t u o).known)
    ]

merge_units-IsOpen :
    (m : HashMap UnitId JobUnit) (s s' : Merged)
    → IsOpen s.table
    → merge_units m s ≡ some s'
    → IsOpen s'.table
unfolding merge_units
merge_units-IsOpen [] s s' o e = subst IsOpen (ground (arith, e)) o
merge_units-IsOpen ((u, ouv) ∷ m) s s' o e =
    let ((dels, r), a, e1) =
      bind-some (Suspends.merge_suspends (uv_pad s.table u) ouv s.heap) _ _ e in
    merge_units-IsOpen m _ s'
      (merged-IsOpen s.table u r.own o
        (merge_suspends-IsMerged (uv_pad s.table u) ouv s.heap dels r a))
      e1

pub merge_suspends_uv-IsConsistent :
    (t o : JobUnitTable) (h : Heap) (s : Merged)
    → IsOpen t
    → merge_suspends_uv t o h ≡ some s
    → IsConsistent s.table
unfolding merge_suspends_uv
merge_suspends_uv-IsConsistent t o h s k e =
    let s0 : Merged = record { table = t; heap = h; adds = []; dels = []; updates = [] } in
    let (s1, a, e1) = bind-some (merge_units o.t_data s0) _ _ e in
    subst IsConsistent (ground (arith, e1))
      (open-IsConsistent s1.table (merge_units-IsOpen o.t_data s0 s1 k a))

isolate_one-IsOpen :
    (ig : UnitId → Bool) (t t' o : JobUnitTable) (u : UnitId) (m : Option JobUnit) (h h' : Heap)
    (l : List ℕ)
    → IsOpen t
    → get t.t_data u ≡ m
    → isolate_one ig t o u m h ≡ some (l, t', h')
    → IsOpen t'
isolate_one-IsOpen ig t t' o u none h h' l k g e = cc
isolate_one-IsOpen ig t t' o u (some uv) h h' l k g e =
    elim (Bool-cases (ig u || is_some (get o.t_data u))) [
      | inl b ↦ subst IsOpen (ground (arith, e, b)) k
      | inr b ↦
          let e0 =
            else-branch {b = is_some (get o.t_data u)} _ _ (ground (arith, b))
              (else-branch {b = ig u} _ _ (ground (arith, b)) e) in
          let ((dels, uv1, h1), a, e1) =
            bind-some (Suspends.flush_suspends uv h) _ (l, t', h') e0 in
          let (x, a1, e2) = bind-some (assert uv1.dirty) _ (l, t', h') e1 in
          let m = flush_suspends-IsMarked uv uv1 h h1 dels a in
          subst IsOpen (ground (arith, e2))
            (put-IsOpen t u uv1 k (ground (arith, g, m.up)) (λ d. ground (arith, d, m.dirt)))
    ]

isolate_units-IsOpen :
    (ig : UnitId → Bool) (o : JobUnitTable) (us : List UnitId) (t t' : JobUnitTable) (h h' : Heap)
    (l : List ℕ)
    → IsOpen t
    → isolate_units ig o us t h ≡ some (l, t', h')
    → IsOpen t'
unfolding isolate_units
isolate_units-IsOpen ig o [] t t' h h' l k e = subst IsOpen (ground (arith, e)) k
isolate_units-IsOpen ig o (u ∷ us) t t' h h' l k e =
    let ((l1, t1, h1), a, e1) = bind-some (isolate_one ig t o u (get t.t_data u) h) _ _ e in
    let ((l2, t2, h2), a1, e2) = bind-some (isolate_units ig o us t1 h1) _ _ e1 in
    subst IsOpen (ground (arith, e2)) (
      isolate_units-IsOpen ig o us t1 t2 h1 h2 l2
        (isolate_one-IsOpen ig t t1 o u (get t.t_data u) h h1 l1 k refl a) a1)

pub isolate_suspends_uv-IsConsistent :
    (ig : UnitId → Bool) (t t' o : JobUnitTable) (h h' : Heap) (l : List ℕ)
    → IsOpen t
    → isolate_suspends_uv ig t o h ≡ some (l, t', h')
    → IsConsistent t'
unfolding isolate_suspends_uv
isolate_suspends_uv-IsConsistent ig t t' o h h' l k e =
    let ((l1, t1, h1), a, e1) = bind-some (isolate_units ig o (keys t.t_data) t h) _ _ e in
    subst IsConsistent (ground (arith, e1))
      (open-IsConsistent t1 (isolate_units-IsOpen ig o (keys t.t_data) t t1 h h1 l1 k a))
