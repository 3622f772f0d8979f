-- ===== src/Job/Table/Queue.antt =====
-- core/bin/job/table.rs: the queue holds exactly the units that are marked for it.
use sysmaster.Base.{
  Bool, true, false, ◌||◌, ◌≡◌, refl, ap, subst, List, [], ◌∷◌, Option, none, some, get, insert,
  contains, ◌==◌, string_eq, set_remove, contains-set_remove, IsDistinct, set_remove-IsDistinct,
  get-insert, arith, inl, ◌⊎◌,
}
use sysmaster.Job.Rentry.{UnitId}
use sysmaster.Job.Junit.{JobUnit, is_nil}
use sysmaster.Job.Table.{JobUnitTable, put_uv}
use sysmaster.Job.Table.Ready.{
  btree_place, btree_insert, insert_readys, readys_backfill, ready_insert, ready_remove, ready_sync,
}

contains-btree_place :
    (l : List UnitId) (u v : UnitId) → contains (btree_place l u) v ≡ (u == v || contains l v)
unfolding btree_place
contains-btree_place [] u v = refl
contains-btree_place (w ∷ l) u v = ground (arith, contains-btree_place l u v)

pub contains-btree_insert :
    (l : List UnitId) (u v : UnitId) → contains (btree_insert l u) v ≡ (u == v || contains l v)
unfolding btree_insert
contains-btree_insert l u v = ground (arith, contains-btree_place l u v, string_eq.beq_iff u v)

contains-insert_readys :
    (l us : List UnitId) (v : UnitId)
    → contains (insert_readys l us) v ≡ (contains us v || contains l v)
unfolding insert_readys
contains-insert_readys l [] v = refl
contains-insert_readys l (u ∷ us) v =
    ground (arith, contains-insert_readys (btree_insert l u) us v, contains-btree_insert l u v)

abbrev pub is_queued : JobUnitTable → UnitId → Bool
is_queued t u = contains t.t_ready u || contains t.readys u

abbrev pub up_of : Option JobUnit → Bool
up_of none = false
up_of (some uv) = uv.up_ready

-- What stands in the queue are the units whose `up_ready` is set, and no unit stands in it twice.
pub record IsQueued (t : JobUnitTable) : Type 0 where
  pub marked : (u : UnitId) → is_queued t u ≡ up_of (get t.t_data u)
  pub once_tree : IsDistinct t.t_ready
  pub once_stack : IsDistinct t.readys
  pub split : (is_nil t.readys ≡ true) ⊎ (is_nil t.t_ready ≡ true)

btree_place-IsDistinct :
    (l : List UnitId) (u : UnitId)
    → IsDistinct l
    → contains l u ≡ false
    → IsDistinct (btree_place l u)
unfolding btree_place
btree_place-IsDistinct [] u d c = (refl, tt)
btree_place-IsDistinct (v ∷ l) u d c = ground (
  arith,
  btree_place-IsDistinct l u d.1,
  contains-btree_place l u v,
  string_eq.beq_iff u v,
  string_eq.beq_iff v u,
)

pub btree_insert-IsDistinct :
    (l : List UnitId) (u : UnitId) → IsDistinct l → IsDistinct (btree_insert l u)
unfolding btree_insert
btree_insert-IsDistinct l u d = ground (arith, btree_place-IsDistinct l u d)

insert_readys-IsDistinct : (l us : List UnitId) → IsDistinct l → IsDistinct (insert_readys l us)
unfolding insert_readys
insert_readys-IsDistinct l [] d = d
insert_readys-IsDistinct l (u ∷ us) d =
    insert_readys-IsDistinct (btree_insert l u) us (btree_insert-IsDistinct l u d)

-- `readys_backfill` moves the whole queue into the tree.
pub record IsMoved (t t' : JobUnitTable) : Type 0 where
  pub sync_kept : t'.sync ≡ t.sync
  pub tree : (v : UnitId) → contains t'.t_ready v ≡ is_queued t v
  pub stack : t'.readys ≡ []
  pub data_kept : t'.t_data ≡ t.t_data
  pub once : IsDistinct t'.t_ready

pub nil_lem : {l : List UnitId} → is_nil l ≡ true → l ≡ []
nil_lem {l = []} e = refl
nil_lem {l = x ∷ l} e = cc

pub backfill-if :
    (t : JobUnitTable)
    → IsDistinct t.t_ready
    → (b : Bool) → is_nil t.readys ≡ b
    → IsMoved t (readys_backfill t)
unfolding readys_backfill
backfill-if t d true e = rw e (record {
  sync_kept = refl;
  tree = λ v. ground (arith, nil_lem e);
  stack = nil_lem e;
  data_kept = refl;
  once = d;
})
backfill-if t d false e = rw e (record {
  sync_kept = refl;
  tree = λ v. ground (arith, contains-insert_readys t.t_ready t.readys v);
  stack = refl;
  data_kept = refl;
  once = insert_readys-IsDistinct t.t_ready t.readys d;
})

abbrev pub marked_up : JobUnit → Bool → JobUnit
marked_up uv b = record uv { up_ready = b }

-- `ready_sync` leaves the mark at `ready`, and writes nothing but this unit.
pub record IsReadied (t : JobUnitTable) (unit : UnitId) (uv : JobUnit) (t' : JobUnitTable)
    : Type 0 where
  pub queue : IsQueued t'
  pub t_data : t'.t_data ≡ insert t.t_data unit (marked_up uv uv.ready)
  pub sync : t'.sync ≡ t.sync

IsQueued-insert :
    (t t0 : JobUnitTable) (unit : UnitId) (uv : JobUnit)
    → IsQueued t
    → IsMoved t t0
    → IsQueued
        (put_uv (record t0 { t_ready = btree_insert t0.t_ready unit }) unit (marked_up uv true))
IsQueued-insert t t0 unit uv q m = record {
  marked = λ v. ground (
    arith,
    q.marked v,
    m.tree v,
    contains-btree_insert t0.t_ready unit v,
    m.stack,
    m.data_kept,
    get-insert t0.t_data unit (marked_up uv true) v,
  );
  once_tree = btree_insert-IsDistinct t0.t_ready unit m.once;
  once_stack = rw m.stack tt;
  split = inl (rw m.stack refl);
}

IsQueued-remove :
    (t t0 : JobUnitTable) (unit : UnitId) (uv : JobUnit)
    → IsQueued t
    → IsMoved t t0
    → IsQueued
        (put_uv (record t0 { t_ready = set_remove t0.t_ready unit }) unit (marked_up uv false))
IsQueued-remove t t0 unit uv q m = record {
  marked = λ v. ground (
    arith,
    q.marked v,
    m.tree v,
    contains-set_remove t0.t_ready unit v,
    m.stack,
    m.data_kept,
    get-insert t0.t_data unit (marked_up uv false) v,
  );
  once_tree = set_remove-IsDistinct t0.t_ready unit m.once;
  once_stack = rw m.stack tt;
  split = inl (rw m.stack refl);
}

pub IsQueued-put :
    (t : JobUnitTable) (unit : UnitId) (uv : JobUnit)
    → IsQueued t
    → up_of (get t.t_data unit) ≡ uv.up_ready
    → IsQueued (put_uv t unit uv)
IsQueued-put t unit uv q e = record {
  marked = λ v. ground (arith, q.marked v, get-insert t.t_data unit uv v, string_eq.beq_iff unit v);
  once_tree = q.once_tree;
  once_stack = q.once_stack;
  split = q.split;
}

IsReadied-put :
    (t : JobUnitTable) (unit : UnitId) (uv : JobUnit)
    → IsQueued t
    → up_of (get t.t_data unit) ≡ uv.up_ready
    → uv.ready ≡ uv.up_ready
    → IsReadied t unit uv (put_uv t unit uv)
IsReadied-put t unit uv q e r = record {
  queue = IsQueued-put t unit uv q e;
  t_data = ap (insert t.t_data unit) (ground (arith, r));
  sync = refl;
}

IsReadied-insert :
    (t t0 : JobUnitTable) (unit : UnitId) (uv : JobUnit)
    → IsQueued t
    → IsMoved t t0
    → uv.ready ≡ true
    → IsReadied t unit uv
        (put_uv (record t0 { t_ready = btree_insert t0.t_ready unit }) unit (marked_up uv true))
IsReadied-insert t t0 unit uv q m r = record {
  queue = IsQueued-insert t t0 unit uv q m;
  t_data = ground (arith, r, m.data_kept);
  sync = m.sync_kept;
}

IsReadied-remove :
    (t t0 : JobUnitTable) (unit : UnitId) (uv : JobUnit)
    → IsQueued t
    → IsMoved t t0
    → uv.ready ≡ false
    → IsReadied t unit uv
        (put_uv (record t0 { t_ready = set_remove t0.t_ready unit }) unit (marked_up uv false))
IsReadied-remove t t0 unit uv q m r = record {
  queue = IsQueued-remove t t0 unit uv q m;
  t_data = ground (arith, r, m.data_kept);
  sync = m.sync_kept;
}

sync-on :
    (t : JobUnitTable) (unit : UnitId) (uv : JobUnit)
    → IsQueued t
    → IsMoved t (readys_backfill t)
    → up_of (get t.t_data unit) ≡ uv.up_ready
    → (b c : Bool) → uv.ready ≡ b
    → uv.up_ready ≡ c
    → IsReadied t unit uv (ready_sync t unit uv)
unfolding ready_sync ready_insert ready_remove
sync-on t unit uv q m e true true r c =
    subst (IsReadied t unit uv) (ground (arith, r, c)) (IsReadied-put t unit uv q e (ground arith))
sync-on t unit uv q m e true false r c =
    subst (IsReadied t unit uv) (ground (arith, r, c))
      (IsReadied-insert t (readys_backfill t) unit uv q m r)
sync-on t unit uv q m e false true r c =
    subst (IsReadied t unit uv) (ground (arith, r, c))
      (IsReadied-remove t (readys_backfill t) unit uv q m r)
sync-on t unit uv q m e false false r c =
    subst (IsReadied t unit uv) (ground (arith, r, c)) (IsReadied-put t unit uv q e (ground arith))

-- Writing back a unit's record with its old mark, and synchronising the queue.
pub ready_sync_lem :
    (t : JobUnitTable) (unit : UnitId) (uv : JobUnit)
    → IsQueued t
    → up_of (get t.t_data unit) ≡ uv.up_ready
    → IsReadied t unit uv (ready_sync t unit uv)
ready_sync_lem t unit uv q e =
    sync-on t unit uv q (backfill-if t q.once_tree (is_nil t.readys) refl) e uv.ready uv.up_ready
      refl refl
