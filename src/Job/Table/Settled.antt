-- ===== src/Job/Table/Settled.antt =====
-- core/bin/job/table.rs: one unit after another is brought in step with the queue.
use sysmaster.Base.{
  ℕ, true, false, ◌≡◌, refl, subst, List, [], ◌∷◌, Option, none, some, get, remove, get-insert,
  get-insert_self, get-remove, contains, ◌==◌, string_eq, set_remove, contains-set_remove,
  set_remove-IsDistinct, arith, inl, inr, Bool-cases, bind-some, then-branch, ◌⊎◌,
}
use sysmaster.Job.Rentry.{UnitId}
use sysmaster.Job.Entry.{Units}
use sysmaster.Job.Heap.{Heap}
use sysmaster.Job.Junit.{JobUnit, is_nil, is_empty}
use sysmaster.Job.Junit.Reshuffle.{reshuffle}
use sysmaster.Job.Table.{JobUnitTable, put_uv}
use sysmaster.Job.Table.Ready.{ready_sync, try_gc_empty_unit, gc_with}
use sysmaster.Job.Table.Queue.{IsQueued, up_of, marked_up, ready_sync_lem, IsReadied, IsQueued-put}
use sysmaster.Job.Table.Entries.{clear_dirty, reshuffle_entry, reshuffle_one, reshuffle_units}
use sysmaster.Job.Table.Marked.{reshuffle-up}

-- The record of a unit that was brought in step.
abbrev pub settled_uv : JobUnit → JobUnit
settled_uv uv = record uv { up_ready = uv.ready; dirty = false }

-- One unit was brought in step, and no other changed.
pub record IsSettledAt (t : JobUnitTable) (u : UnitId) (uv : JobUnit) (t' : JobUnitTable)
    : Type 0 where
  pub queue : IsQueued t'
  pub here : get t'.t_data u ≡ some (settled_uv uv)
  pub others : (v : UnitId) → (u == v) ≡ false → get t'.t_data v ≡ get t.t_data v
  pub same_sync : t'.sync ≡ t.sync

pub clear-settles :
    (t t1 : JobUnitTable) (u : UnitId) (uv : JobUnit)
    → IsReadied t u uv t1
    → (t' : JobUnitTable) × (clear_dirty t1 u ≡ some t') × IsSettledAt t u uv t'
unfolding clear_dirty
clear-settles t t1 u uv r =
    let at : get t1.t_data u ≡ some (marked_up uv uv.ready) =
      rw r.t_data (get-insert_self t.t_data u (marked_up uv uv.ready)) in
    (
      put_uv t1 u (settled_uv uv),
      rw at refl,
      record {
        queue = IsQueued-put t1 u (settled_uv uv) r.queue (rw at refl);
        same_sync = r.sync;
        here = get-insert_self t1.t_data u (settled_uv uv);
        others = λ v ne. ground (
          arith,
          ne,
          get-insert t1.t_data u (settled_uv uv) v,
          r.t_data,
          get-insert t.t_data u (marked_up uv uv.ready) v,
        );
      },
    )

-- What a unit is once it is in step: clean, and marked exactly if it is ready.
pub record IsInStep (uv : JobUnit) : Type 0 where
  pub clean : uv.dirty ≡ false
  pub marked : uv.up_ready ≡ uv.ready

-- The queue is well-formed, a clean unit is in step, and outside `rest` every unit is clean.
pub record IsTracked (rest : List UnitId) (t : JobUnitTable) : Type 0 where
  pub queue : IsQueued t
  pub known :
      (u : UnitId) (uv : JobUnit)
      → get t.t_data u ≡ some uv
      → uv.dirty ≡ false
      → uv.up_ready ≡ uv.ready
  pub clean :
      (u : UnitId) (uv : JobUnit)
      → get t.t_data u ≡ some uv
      → contains rest u ≡ false
      → uv.dirty ≡ false

settled-IsTracked :
    (t t' : JobUnitTable) (u : UnitId) (uv : JobUnit) (rest : List UnitId)
    → IsTracked (u ∷ rest) t
    → IsSettledAt t u uv t'
    → IsTracked rest t'
settled-IsTracked t t' u uv rest k s = record {
  queue = s.queue;
  known = λ v w e c. elim (Bool-cases (u == v)) [
    | inl same ↦ ground (arith, s.here, e, (string_eq.beq_iff u v).0 same)
    | inr other ↦ k.known v w (ground (arith, e, s.others v other)) c
  ];
  clean = λ v w e c. elim (Bool-cases (u == v)) [
    | inl same ↦ ground (arith, s.here, e, (string_eq.beq_iff u v).0 same)
    | inr other ↦ k.clean v w (ground (arith, e, s.others v other)) (ground (arith, c, other))
  ];
}

-- A unit that is not marked is taken out.
abbrev pub without_unit : JobUnitTable → UnitId → JobUnitTable
without_unit t u = record t { t_data = remove t.t_data u; t_ready = set_remove t.t_ready u }

removed-nil : (l : List UnitId) (u : UnitId) → is_nil l ≡ true → is_nil (set_remove l u) ≡ true
unfolding set_remove
removed-nil [] u e = refl
removed-nil (x ∷ l) u e = cc

-- A unit that is not marked is not on the stack.
pub unmarked_off :
    (t : JobUnitTable) (u : UnitId)
    → IsQueued t
    → up_of (get t.t_data u) ≡ false
    → contains t.readys u ≡ false
unmarked_off t u q e = ground (arith, q.marked u, e)

pub removed-IsQueued :
    (t : JobUnitTable) (u : UnitId)
    → IsQueued t
    → contains t.readys u ≡ false
    → IsQueued (without_unit t u)
removed-IsQueued t u q off = record {
  marked = λ v. ground (
    arith,
    q.marked v,
    off,
    contains-set_remove t.t_ready u v,
    get-remove t.t_data u v,
    string_eq.beq_iff u v,
  );
  once_tree = set_remove-IsDistinct t.t_ready u q.once_tree;
  once_stack = q.once_stack;
  split = elim q.split [ inl a ↦ inl a | inr b ↦ inr (removed-nil t.t_ready u b) ];
}

removed-IsTracked :
    (t : JobUnitTable) (u : UnitId) (rest : List UnitId)
    → IsTracked rest t
    → up_of (get t.t_data u) ≡ false
    → IsTracked rest (without_unit t u)
removed-IsTracked t u rest k e = record {
  queue = removed-IsQueued t u k.queue (unmarked_off t u k.queue e);
  known = λ v w f c. k.known v w (ground (arith, f, get-remove t.t_data u v)) c;
  clean = λ v w f c. k.clean v w (ground (arith, f, get-remove t.t_data u v)) c;
}

pub gc_with-cases :
    (t t' : JobUnitTable) (u : UnitId) (o : Option JobUnit)
    → gc_with t u o ≡ some t'
    → (t ≡ t') ⊎ ((without_unit t u ≡ t') × (up_of o ≡ false))
gc_with-cases t t' u none e = cc
gc_with-cases t t' u (some uv) e = elim (Bool-cases (is_empty uv)) [
  | inl b ↦ inr (ground (arith, e, b), ground (arith, e, b))
  | inr b ↦ inl (ground (arith, e, b))
]

-- `try_gc_empty_unit` takes out a unit that is empty, and not marked.
pub gc-IsTracked :
    (t t' : JobUnitTable) (u : UnitId) (rest : List UnitId)
    → IsTracked rest t
    → try_gc_empty_unit t u ≡ some t'
    → IsTracked rest t'
unfolding try_gc_empty_unit
gc-IsTracked t t' u rest k e = elim (gc_with-cases t t' u (get t.t_data u) e) [
  | inl same ↦ subst (IsTracked rest) same k
  | inr (gone, up) ↦ subst (IsTracked rest) gone (removed-IsTracked t u rest k up)
]

clean-IsTracked :
    (t : JobUnitTable) (u : UnitId) (uv : JobUnit) (rest : List UnitId)
    → IsTracked (u ∷ rest) t
    → get t.t_data u ≡ some uv
    → uv.dirty ≡ false
    → IsTracked rest (put_uv t u uv)
clean-IsTracked t u uv rest k g c = record {
  queue = IsQueued-put t u uv k.queue (rw g refl);
  known = λ v w e d.
      k.known v w (ground (arith, e, get-insert t.t_data u uv v, g, string_eq.beq_iff u v)) d;
  clean = λ v w e f. elim (Bool-cases (u == v)) [
    | inl same ↦ ground (arith, same, e, get-insert t.t_data u uv v, c)
    | inr other ↦
        k.clean v w (ground (arith, other, e, get-insert t.t_data u uv v))
          (ground (arith, f, other))
  ];
}

entry-IsTracked :
    (us : Units) (t t' : JobUnitTable) (u : UnitId) (uv : JobUnit) (h h' : Heap) (jobs : List ℕ)
    (rest : List UnitId)
    → IsTracked (u ∷ rest) t
    → get t.t_data u ≡ some uv
    → reshuffle_entry us t u uv h ≡ some (jobs, t', h')
    → IsTracked rest t'
unfolding reshuffle_entry
entry-IsTracked us t t' u uv h h' jobs rest k g e = elim (Bool-cases uv.dirty) [
  | inl d ↦
      let ((l, uv1, h1), a1, e1) =
        bind-some (reshuffle us uv h) _ (jobs, t', h') (then-branch _ _ d e) in
      let (t2, a2, e2) = bind-some (clear_dirty (ready_sync t u uv1) u) _ (jobs, t', h') e1 in
      let up : up_of (get t.t_data u) ≡ uv1.up_ready =
        ground (arith, g, reshuffle-up us uv uv1 h h1 l a1) in
      let (t3, a3, s) =
        clear-settles t (ready_sync t u uv1) u uv1 (ready_sync_lem t u uv1 k.queue up) in
      settled-IsTracked t t' u uv1 rest k
        (subst (IsSettledAt t u uv1) (ground (arith, a2, a3, e2)) s)
  | inr d ↦ subst (IsTracked rest) (ground (arith, e, d)) (clean-IsTracked t u uv rest k g d)
]

one-IsTracked :
    (us : Units) (t t' : JobUnitTable) (u : UnitId) (o : Option JobUnit) (h h' : Heap)
    (jobs : List ℕ) (rest : List UnitId)
    → IsTracked (u ∷ rest) t
    → get t.t_data u ≡ o
    → reshuffle_one us t u o h ≡ some (jobs, t', h')
    → IsTracked rest t'
one-IsTracked us t t' u none h h' jobs rest k g e = cc
one-IsTracked us t t' u (some uv) h h' jobs rest k g e =
    let ((l, t1, h1), a1, e1) = bind-some (reshuffle_entry us t u uv h) _ (jobs, t', h') e in
    let (t2, a2, e2) = bind-some (try_gc_empty_unit t1 u) _ (jobs, t', h') e1 in
    subst (IsTracked rest) (ground (arith, e2))
      (gc-IsTracked t1 t2 u rest (entry-IsTracked us t t1 u uv h h1 l rest k g a1) a2)

pub units-IsTracked :
    (us : Units) (rest : List UnitId) (t t' : JobUnitTable) (h h' : Heap) (jobs : List ℕ)
    → IsTracked rest t
    → reshuffle_units us rest t h ≡ some (jobs, t', h')
    → IsTracked [] t'
unfolding reshuffle_units
units-IsTracked us [] t t' h h' jobs k e = subst (IsTracked []) (ground (arith, e)) k
units-IsTracked us (u ∷ rest) t t' h h' jobs k e =
    let ((l, t1, h1), a1, e1) =
      bind-some (reshuffle_one us t u (get t.t_data u) h) _ (jobs, t', h') e in
    let ((l2, t2, h2), a2, e2) = bind-some (reshuffle_units us rest t1 h1) _ (jobs, t', h') e1 in
    subst (IsTracked []) (ground (arith, e2)) (
      units-IsTracked us rest t1 t2 h1 h2 l2
        (one-IsTracked us t t1 u (get t.t_data u) h h1 l rest k refl a1) a2)
