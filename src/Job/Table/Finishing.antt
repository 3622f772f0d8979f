-- ===== src/Job/Table/Finishing.antt =====
-- core/bin/job/table.rs: finishing, removing and resuming keep a table consistent.
use sysmaster.Base.{
  ℕ, Bool, true, false, not, ◌≡◌, refl, subst, List, Option, none, some, get, ◌==◌, string_eq,
  arith, inl, inr, Bool-cases, bind-some, then-branch, if◌then◌else◌, assert, is_some, ◌>>=◌,
}
use sysmaster.Job.Rentry.{UnitId}
use sysmaster.Job.Kind.{JobKind, JobResult}
use sysmaster.Job.Entry.{Units}
use sysmaster.Job.Heap.{Heap}
use sysmaster.Job.Junit.{JobUnit}
use sysmaster.Job.Junit.Suspends as Suspends
use sysmaster.Job.Junit.Reshuffle.{reshuffle}
use sysmaster.Job.Junit.Trigger as Trigger
use sysmaster.Job.Table.{JobUnitTable}
use sysmaster.Job.Table.Ready.{ready_sync, try_gc_empty_unit}
use sysmaster.Job.Table.Queue.{up_of, ready_sync_lem}
use sysmaster.Job.Table.Entries.{
  clear_dirty, reshuffle_entry, finish_entry, finish_at, finish_trigger_uv, remove_second,
  remove_entry_uv, remove_at, remove_suspends_uv, resume_entry, resume_at, resume_unit_uv,
}
use sysmaster.Job.Table.Marked.{reshuffle-up}
use sysmaster.Job.Table.Touched.{remove_suspend-IsMarked, resume_unit-IsMarked, IsMarked}
use sysmaster.Job.Table.Triggering.{finish_trigger-up}
use sysmaster.Job.Table.Settled.{IsSettledAt, clear-settles, gc_with-cases, unmarked_off}
use sysmaster.Job.Table.Consistent.{IsConsistent}
use sysmaster.Job.Table.Dropped.{without_unit-IsConsistent}

settled-IsConsistent :
    (t t' : JobUnitTable) (u : UnitId) (uv : JobUnit)
    → IsConsistent t
    → IsSettledAt t u uv t'
    → IsConsistent t'
settled-IsConsistent t t' u uv k s = record {
  opened = record {
    queue = s.queue;
    known = λ v w e c. elim (Bool-cases (u == v)) [
      | inl same ↦ ground (arith, s.here, e, (string_eq.beq_iff u v).0 same)
      | inr other ↦ k.opened.known v w (ground (arith, e, s.others v other)) c
    ];
  };
  clean = λ v w e c. elim (Bool-cases (u == v)) [
    | inl same ↦ ground (arith, s.here, e, (string_eq.beq_iff u v).0 same)
    | inr other ↦ k.clean v w (ground (arith, e, s.others v other)) (ground (arith, c, s.same_sync))
  ];
}

-- A unit's new record, with its old mark, is synchronised with the queue.
sync-IsConsistent :
    (t t' : JobUnitTable) (u : UnitId) (uv : JobUnit)
    → IsConsistent t
    → up_of (get t.t_data u) ≡ uv.up_ready
    → clear_dirty (ready_sync t u uv) u ≡ some t'
    → IsConsistent t'
sync-IsConsistent t t' u uv k up e =
    let (t1, a, s) =
      clear-settles t (ready_sync t u uv) u uv (ready_sync_lem t u uv k.opened.queue up) in
    settled-IsConsistent t t' u uv k (subst (IsSettledAt t u uv) (ground (arith, a, e)) s)

gc-IsConsistent :
    (t t' : JobUnitTable) (u : UnitId)
    → IsConsistent t
    → try_gc_empty_unit t u ≡ some t'
    → IsConsistent t'
unfolding try_gc_empty_unit
gc-IsConsistent t t' u k e = elim (gc_with-cases t t' u (get t.t_data u) e) [
  | inl same ↦ subst IsConsistent same k
  | inr (gone, up) ↦
      subst IsConsistent gone (without_unit-IsConsistent t u (unmarked_off t u k.opened.queue up) k)
]

finish_at-IsConsistent :
    (t t' : JobUnitTable) (u : UnitId) (o : Option JobUnit) (res : JobResult) (h h' : Heap)
    (r : Option ℕ)
    → IsConsistent t
    → get t.t_data u ≡ o
    → finish_at t u o res h ≡ some (r, t', h')
    → IsConsistent t'
unfolding finish_entry
finish_at-IsConsistent t t' u none res h h' r k g e = cc
finish_at-IsConsistent t t' u (some uv) res h h' r k g e =
    let (x, a, e1) = bind-some (assert (is_some uv.trigger)) _ _ e in
    let ((r1, t1, h1), a1, e2) = bind-some (finish_entry t u uv res h) _ _ e1 in
    let (y, b, f1) = bind-some (assert (not uv.dirty)) _ _ a1 in
    let ((r2, uv2, h2), b1, f2) = bind-some (Trigger.finish_trigger uv res h) _ _ f1 in
    let (t2, b2, f3) = bind-some (clear_dirty (ready_sync t u uv2) u) _ _ f2 in
    let (t3, a2, e3) = bind-some (try_gc_empty_unit t1 u) _ _ e2 in
    let k1 =
      sync-IsConsistent t t1 u uv2 k (ground (arith, g, finish_trigger-up uv uv2 res h h2 r2 b1))
        (ground (arith, b2, f3)) in
    subst IsConsistent (ground (arith, e3)) (gc-IsConsistent t1 t3 u k1 a2)

pub finish_trigger_uv-IsConsistent :
    (t t' : JobUnitTable) (u : UnitId) (res : JobResult) (h h' : Heap) (r : Option ℕ)
    → IsConsistent t
    → finish_trigger_uv t u res h ≡ some (r, t', h')
    → IsConsistent t'
unfolding finish_trigger_uv
finish_trigger_uv-IsConsistent t t' u res h h' r k e =
    let (x, a, e1) = bind-some (assert t.sync) _ _ e in
    finish_at-IsConsistent t t' u (get t.t_data u) res h h' r k refl e1

-- A dirty record of a unit, with its old mark, is reshuffled.
dirty-IsConsistent :
    (us : Units) (t t' : JobUnitTable) (u : UnitId) (uv : JobUnit) (h h' : Heap) (l : List ℕ)
    → IsConsistent t
    → up_of (get t.t_data u) ≡ uv.up_ready
    → uv.dirty ≡ true
    → reshuffle_entry us t u uv h ≡ some (l, t', h')
    → IsConsistent t'
unfolding reshuffle_entry
dirty-IsConsistent us t t' u uv h h' l k up d e =
    let ((l1, uv1, h1), a, e1) =
      bind-some (reshuffle us uv h) _ (l, t', h') (then-branch _ _ d e) in
    let (t1, a1, e2) = bind-some (clear_dirty (ready_sync t u uv1) u) _ (l, t', h') e1 in
    sync-IsConsistent t t' u uv1 k (ground (arith, up, reshuffle-up us uv uv1 h h1 l1 a))
      (ground (arith, a1, e2))

second-IsMarked :
    (d d1 d2 : JobUnit) (k : Option JobKind) (res : JobResult) (h h' : Heap) (o : Option ℕ)
    → IsMarked d true d1
    → remove_second d1 k res h ≡ some (o, d2, h')
    → IsMarked d true d2
second-IsMarked d d1 d2 none res h h' o m e = record {
  up = ground (arith, e, m.up);
  dirt = ground (arith, e, m.dirt);
}
second-IsMarked d d1 d2 (some k) res h h' o m e =
    let n = remove_suspend-IsMarked d1 d2 k res h h' o e in
    record { up = ground (arith, n.up, m.up); dirt = n.dirt }

remove_entry_uv-IsConsistent :
    (us : Units) (t t' : JobUnitTable) (u : UnitId) (uv : JobUnit) (k1 : JobKind)
    (k2 : Option JobKind) (res : JobResult) (h h' : Heap) (l : List ℕ)
    → IsConsistent t
    → get t.t_data u ≡ some uv
    → remove_entry_uv us t u uv k1 k2 res h ≡ some (l, t', h')
    → IsConsistent t'
unfolding remove_entry_uv
remove_entry_uv-IsConsistent us t t' u uv k1 k2 res h h' l k g e =
    let (x, a, e1) = bind-some (assert (not uv.dirty)) _ _ e in
    let ((j1, uv1, h1), a1, e2) = bind-some (Suspends.remove_suspend uv k1 res h) _ _ e1 in
    let ((j2, uv2, h2), a2, e3) = bind-some (remove_second uv1 k2 res h1) _ _ e2 in
    let ((l3, t3, h3), a3, e4) = bind-some (reshuffle_entry us t u uv2 h2) _ _ e3 in
    let m =
      second-IsMarked uv uv1 uv2 k2 res h1 h2 j2 (remove_suspend-IsMarked uv uv1 k1 res h h1 j1 a1)
        a2 in
    subst IsConsistent (ground (arith, e4))
      (dirty-IsConsistent us t t3 u uv2 h2 h3 l3 k (ground (arith, g, m.up)) m.dirt a3)

remove_at-IsConsistent :
    (us : Units) (t t' : JobUnitTable) (u : UnitId) (o : Option JobUnit) (k1 : JobKind)
    (k2 : Option JobKind) (res : JobResult) (h h' : Heap) (l : List ℕ)
    → IsConsistent t
    → get t.t_data u ≡ o
    → remove_at us t u o k1 k2 res h ≡ some (l, t', h')
    → IsConsistent t'
remove_at-IsConsistent us t t' u none k1 k2 res h h' l k g e =
    subst IsConsistent (ground (arith, e)) k
remove_at-IsConsistent us t t' u (some uv) k1 k2 res h h' l k g e =
    let ((l1, t1, h1), a, e1) = bind-some (remove_entry_uv us t u uv k1 k2 res h) _ _ e in
    let (t2, a1, e2) = bind-some (try_gc_empty_unit t1 u) _ _ e1 in
    subst IsConsistent (ground (arith, e2)) (
      gc-IsConsistent t1 t2 u (remove_entry_uv-IsConsistent us t t1 u uv k1 k2 res h h1 l1 k g a)
        a1)

pub remove_suspends_uv-IsConsistent :
    (us : Units) (t t' : JobUnitTable) (u : UnitId) (k1 : JobKind) (k2 : Option JobKind)
    (res : JobResult) (h h' : Heap) (l : List ℕ)
    → IsConsistent t
    → remove_suspends_uv us t u k1 k2 res h ≡ some (l, t', h')
    → IsConsistent t'
unfolding remove_suspends_uv
remove_suspends_uv-IsConsistent us t t' u k1 k2 res h h' l k e =
    let (x, a, e1) = bind-some (assert t.sync) _ _ e in
    remove_at-IsConsistent us t t' u (get t.t_data u) k1 k2 res h h' l k refl e1

resume_entry-IsConsistent :
    (t t' : JobUnitTable) (u : UnitId) (uv : JobUnit) (b : Bool)
    → IsConsistent t
    → get t.t_data u ≡ some uv
    → (if b then (Trigger.resume_unit uv >>= λ uv'. clear_dirty (ready_sync t u uv') u) else some t)
      ≡ some t'
    → IsConsistent t'
resume_entry-IsConsistent t t' u uv false k g e = subst IsConsistent (ground (arith, e)) k
resume_entry-IsConsistent t t' u uv true k g e =
    let (uv1, a, e1) = bind-some (Trigger.resume_unit uv) _ _ e in
    sync-IsConsistent t t' u uv1 k (ground (arith, g, (resume_unit-IsMarked uv uv1 a).up)) e1

resume_at-IsConsistent :
    (t t' : JobUnitTable) (u : UnitId) (o : Option JobUnit)
    → IsConsistent t
    → get t.t_data u ≡ o
    → resume_at t u o ≡ some t'
    → IsConsistent t'
unfolding resume_entry
resume_at-IsConsistent t t' u none k g e = subst IsConsistent (ground (arith, e)) k
resume_at-IsConsistent t t' u (some uv) k g e =
    let (x, a, e1) = bind-some (assert (not uv.dirty)) _ _ e in
    resume_entry-IsConsistent t t' u uv uv.pause k g e1

pub resume_unit_uv-IsConsistent :
    (t t' : JobUnitTable) (u : UnitId)
    → IsConsistent t
    → resume_unit_uv t u ≡ some t'
    → IsConsistent t'
unfolding resume_unit_uv
resume_unit_uv-IsConsistent t t' u k e = resume_at-IsConsistent t t' u (get t.t_data u) k refl e
