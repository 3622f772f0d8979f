-- ===== src/Job/Table/Tried.antt =====
-- core/bin/job/table.rs: a unit that was popped and tried leaves the table consistent.
use sysmaster.Base.{
  Bool, true, false, not, ◌≡◌, Option, some, get, insert, get-insert, ◌==◌, string_eq, arith, inl,
  inr, Bool-cases, bind-some, assert,
}
use sysmaster.Unit.Deps.{DepTable}
use sysmaster.Job.Rentry.{UnitId}
use sysmaster.Job.Entry.{Units}
use sysmaster.Job.Heap.{Heap}
use sysmaster.Job.Junit.{JobUnit}
use sysmaster.Job.Junit.Trigger as Trigger
use sysmaster.Job.Table.{JobUnitTable, put_uv}
use sysmaster.Job.Table.Queue.{IsQueued, IsQueued-put, marked_up}
use sysmaster.Job.Table.Popped.{IsPopped}
use sysmaster.Job.Table.Runnable.{Triggered, is_uv_runnable, trigger_or_pause, try_trigger_entry}
use sysmaster.Job.Table.Touched.{pause_unit-IsMarked}
use sysmaster.Job.Table.Triggering.{do_trigger-up}
use sysmaster.Job.Table.Consistent.{IsConsistent}

trigger_or_pause-up :
    (us : Units) (b : Bool) (d d' : JobUnit) (h h' : Heap) (x : Triggered)
    → trigger_or_pause us b d h ≡ some (x, d', h')
    → d'.up_ready ≡ d.up_ready
trigger_or_pause-up us true d d' h h' x e =
    let ((j, o, m, d1, h1), a, e1) = bind-some (Trigger.do_trigger us d h) _ _ e in
    ground (arith, e1, do_trigger-up us d d1 h h1 j o m a)
trigger_or_pause-up us false d d' h h' x e =
    let (d1, a, e1) = bind-some (Trigger.pause_unit d) _ _ e in
    ground (arith, e1, (pause_unit-IsMarked d d1 a).up)

-- A unit that was tried: clean, not ready, with its old mark.
pub record IsTried (d d' : JobUnit) : Type 0 where
  pub up : d'.up_ready ≡ d.up_ready
  pub calm : d'.ready ≡ false
  pub clean : d'.dirty ≡ false

pub try_trigger_entry-IsTried :
    (us : Units) (db : DepTable) (t : JobUnitTable) (d d' : JobUnit) (h h' : Heap) (x : Triggered)
    → try_trigger_entry us db t d h ≡ some (x, d', h')
    → IsTried d d'
unfolding try_trigger_entry
try_trigger_entry-IsTried us db t d d' h h' x e =
    let (y, a, e1) = bind-some (assert (not d.dirty)) _ _ e in
    let (b, a1, e2) = bind-some (is_uv_runnable db t d h) _ _ e1 in
    let ((r, d1, h1), a2, e3) = bind-some (trigger_or_pause us b d h) _ _ e2 in
    let (z, a3, e4) = bind-some (assert (not d1.ready)) _ _ e3 in
    record {
      up = ground (arith, e4, trigger_or_pause-up us b d d1 h h1 r a2);
      calm = ground (arith, e4, a3);
      clean = ground (arith, e4);
    }

pub popped-IsConsistent :
    (t t1 : JobUnitTable) (want : Option UnitId) (u : UnitId) (w : JobUnit)
    → IsConsistent t
    → t.sync ≡ true
    → IsQueued t1
    → IsPopped t want u t1
    → w.up_ready ≡ false
    → w.ready ≡ false
    → w.dirty ≡ false
    → IsConsistent (put_uv t1 u w)
popped-IsConsistent t t1 want u w k s q p up r d = record {
  opened = record {
    queue = IsQueued-put t1 u w q (
        ground (
          arith,
          up,
          p.t_data,
          get-insert t.t_data u (marked_up p.uv false) u,
          string_eq.beq_iff u u,
        ));
    known = λ v x e c. elim (Bool-cases (u == v)) [
      | inl same ↦ ground (arith, same, e, up, r, get-insert t1.t_data u w v)
      | inr other ↦ k.opened.known v x (before v x other e) c
    ];
  };
  clean = λ v x e c. elim (Bool-cases (u == v)) [
    | inl same ↦ ground (arith, same, e, d, get-insert t1.t_data u w v)
    | inr other ↦ k.clean v x (before v x other e) s
  ];
}
  where
    before :
        (v : UnitId) (x : JobUnit)
        → (u == v) ≡ false
        → get (insert t1.t_data u w) v ≡ some x
        → get t.t_data v ≡ some x
    before v x other e = ground (
      arith,
      other,
      e,
      get-insert t1.t_data u w v,
      p.t_data,
      get-insert t.t_data u (marked_up p.uv false) v,
    )
