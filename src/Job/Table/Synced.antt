-- ===== src/Job/Table/Synced.antt =====
-- core/bin/job/table.rs: reshuffling brings the queue in step with the units.
use sysmaster.Base.{
  ℕ, true, false, ◌≡◌, ◌↔◌, refl, subst, List, [], ◌∷◌, Option, none, some, HashMap, get, keys,
  contains, string_eq, arith, inl, inr, Bool-cases, bind-some,
}
use sysmaster.Job.Rentry.{UnitId}
use sysmaster.Job.Entry.{Units}
use sysmaster.Job.Heap.{Heap}
use sysmaster.Job.Junit.{JobUnit, is_nil}
use sysmaster.Job.Table.{JobUnitTable}
use sysmaster.Job.Table.Ready.{calc_table_ready}
use sysmaster.Job.Table.Queue.{IsQueued, is_queued, up_of}
use sysmaster.Job.Table.Entries.{reshuffle_units, reshuffle_table}
use sysmaster.Job.Table.Settled.{IsInStep, IsTracked, units-IsTracked}

keys-get : (m : HashMap UnitId JobUnit) (u : UnitId) → contains (keys m) u ≡ false → get m u ≡ none
unfolding get
keys-get [] u c = refl
keys-get ((v, uv) ∷ m) u c = ground (arith, c, keys-get m u)

-- Before a reshuffle: the queue is well-formed, and every clean unit is in step.
pub record IsOpen (t : JobUnitTable) : Type 0 where
  pub queue : IsQueued t
  pub known :
      (u : UnitId) (uv : JobUnit)
      → get t.t_data u ≡ some uv
      → uv.dirty ≡ false
      → uv.up_ready ≡ uv.ready

-- And after: every unit is clean and in step, and the table is marked so.
pub record IsSynced (t : JobUnitTable) : Type 0 where
  pub queue : IsQueued t
  pub sync : t.sync ≡ true
  pub in_step : (u : UnitId) (uv : JobUnit) → get t.t_data u ≡ some uv → IsInStep uv

tracked-IsSynced : (t : JobUnitTable) → IsTracked [] t → IsSynced (record t { sync = true })
tracked-IsSynced t k = record {
  queue = record {
    marked = k.queue.marked;
    once_tree = k.queue.once_tree;
    once_stack = k.queue.once_stack;
    split = k.queue.split;
  };
  sync = refl;
  in_step = λ u uv e. record {
    clean = k.clean u uv e refl;
    marked = k.known u uv e (k.clean u uv e refl);
  };
}

-- If the queue is well-formed and every clean unit is marked exactly if it is ready, then a reshuffle
-- of the table that does not panic leaves a well-formed queue, marks the table as in step, and leaves
-- every unit clean and marked exactly if it is ready.
pub reshuffle_table-IsSynced :
    (us : Units) (t t' : JobUnitTable) (h h' : Heap) (jobs : List ℕ)
    → IsOpen t
    → reshuffle_table us t h ≡ some (jobs, t', h')
    → IsSynced t'
unfolding reshuffle_table
reshuffle_table-IsSynced us t t' h h' jobs o e =
    let ((l, t1, h1), a, e1) =
      bind-some (reshuffle_units us (keys t.t_data) t h) _ (jobs, t', h') e in
    subst IsSynced (ground (arith, e1)) (
      tracked-IsSynced t1 (
        units-IsTracked us (keys t.t_data) t t1 h h1 l
          (record {
            queue = o.queue;
            known = o.known;
            clean = λ u uv f c. ground (arith, f, keys-get t.t_data u c);
          })
          a))

queued_head : (l : List UnitId) → is_nil l ≡ false → (u : UnitId) × (contains l u ≡ true)
queued_head [] e = cc
queued_head (u ∷ l) e = (u, ground (arith, string_eq.beq_iff u u))

up_some :
    (m : Option JobUnit) → up_of m ≡ true → (uv : JobUnit) × (m ≡ some uv) × (uv.up_ready ≡ true)
up_some none e = cc
up_some (some uv) e = (uv, refl, e)

nil-contains : (l : List UnitId) (u : UnitId) → is_nil l ≡ true → contains l u ≡ false
nil-contains [] u e = refl
nil-contains (x ∷ l) u e = cc

ready-unit :
    (t : JobUnitTable) (u : UnitId)
    → IsSynced t
    → is_queued t u ≡ true
    → (v : UnitId) × (uv : JobUnit) × (get t.t_data v ≡ some uv) × (uv.ready ≡ true)
ready-unit t u s c =
    let (uv, e, up) = up_some (get t.t_data u) (ground (arith, s.queue.marked u, c)) in
    (u, uv, e, ground (arith, up, (s.in_step u uv e).marked))

-- A table that is in step is ready exactly if one of its units is.
pub calc_table_ready_lem :
    (t : JobUnitTable)
    → IsSynced t
    → (calc_table_ready t ≡ true)
      ↔ ((u : UnitId) × (uv : JobUnit) × (get t.t_data u ≡ some uv) × (uv.ready ≡ true))
unfolding calc_table_ready
calc_table_ready_lem t s = (
  λ h. elim (Bool-cases (is_nil t.t_ready)) [
    | inl e ↦
        let (u, c) = queued_head t.readys (ground (arith, h, e)) in
        ready-unit t u s (ground (arith, c))
    | inr e ↦ let (u, c) = queued_head t.t_ready e in ready-unit t u s (ground (arith, c))
  ],
  λ (u, uv, e, r). ground (
    arith,
    e,
    r,
    s.sync,
    s.queue.marked u,
    (s.in_step u uv e).marked,
    nil-contains t.t_ready u,
    nil-contains t.readys u,
  ),
)
