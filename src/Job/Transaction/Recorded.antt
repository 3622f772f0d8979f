-- ===== src/Job/Transaction/Recorded.antt =====
-- core/bin/job/table.rs: recording a job on the stage of a transaction does not fail.
use sysmaster.Base.{
  ℕ, suc, ◌+◌, ◌<◌, Bool, true, false, ◌||◌, ◌&&◌, ◌≡◌, refl, List, ◌∷◌, length, contains, none,
  some, HashMap, get, insert, get-insert, is_some, ◌==◌, nat_eq, string_eq, arith, inl, inr,
  Bool-cases, Option-cases,
}
use sysmaster.Job.Kind.{JobKind, kind_eq, JobMode, job_is_basic_op}
use sysmaster.Job.Rentry.{UnitId}
use sysmaster.Job.Entry.{Job, new_job, init_attr}
use sysmaster.Job.Heap.{Heap, write, read-write_self}
use sysmaster.Job.Alloc.{JobAlloc, alloc_id}
use sysmaster.Job.Alloc.Fresh.{alloc_id_lem}
use sysmaster.Job.Junit.{
  JobUnit, update_ready, calc_ready, calc_natural_ready, is_trigger, new_unit,
}
use sysmaster.Job.Junit.Suspends as Suspends
use sysmaster.Job.Table.{JobUnitTable, uv_pad, put_uv}
use sysmaster.Job.Table.Units.{insert_suspend_uv, get_suspend}
use sysmaster.Job.Table.Jobs.{
  JobTable, Stage, alloc, record_new, record_suspend, insert_suspend_job, inserted,
}

-- Is there a job of this kind for the unit on the stage?
abbrev pub staged : Stage → UnitId → JobKind → Bool
staged s unit kind = is_some (get_suspend s.table.t_unit unit kind)

-- What holds of every stage: its units have only jobs that wait, and its ids were given away.
pub record IsStage (s : Stage) : Type 0 where
  pub calm : (u : UnitId) (uv : JobUnit) → get s.table.t_unit.t_data u ≡ some uv → uv.trigger ≡ none
  pub ids : (id : ℕ) → contains s.ja.ids id ≡ false → get s.table.t_id id ≡ none

-- The unit's record after a job was inserted.
abbrev with_job : JobUnit → JobKind → ℕ → JobUnit
with_job uv kind r = record uv {
  suspends = insert uv.suspends kind r;
  order = false;
  dirty = true;
  ready = false;
}

insert_suspend_lem :
    (uv : JobUnit) (r : ℕ) (kind : JobKind) (h : Heap)
    → (h.job r).kind ≡ kind
    → job_is_basic_op kind ≡ true
    → uv.trigger ≡ none
    → get uv.suspends kind ≡ none
    → Suspends.insert_suspend uv r false h ≡ some (with_job uv kind r, h)
unfolding Suspends.insert_suspend update_ready calc_ready calc_natural_ready is_trigger
insert_suspend_lem uv r kind h k b t g = ground (arith, k, b, t, g)

-- The record that `get_mut_uv_pad` gives has no trigger, and the kinds that wait are those of the stage.
record IsPad (t : JobUnitTable) (unit : UnitId) (uv : JobUnit) : Type 0 where
  no_trigger : uv.trigger ≡ none
  waits : (k : JobKind) → get uv.suspends k ≡ get_suspend t unit k

pad_lem :
    (t : JobUnitTable) (unit : UnitId)
    → ((uv : JobUnit) → get t.t_data unit ≡ some uv → uv.trigger ≡ none)
    → IsPad t unit (uv_pad t unit)
unfolding uv_pad get_suspend get new_unit
pad_lem t unit c = elim (Option-cases (get t.t_data unit)) [
  | inl e ↦ record { no_trigger = ground (arith, e); waits = λ k. ground (arith, e) }
  | inr (uv, e) ↦ record { no_trigger = ground (arith, e, c uv e); waits = λ k. ground (arith, e) }
]

-- The stage after the job `r` was put on it.
abbrev table_with : JobTable → UnitId → JobKind → ℕ → JobTable
table_with t unit kind r = record {
  t_id = insert t.t_id r r;
  t_unit = record (put_uv t.t_unit unit (with_job (uv_pad t.t_unit unit) kind r)) { sync = false };
}

insert_suspend_steps :
    (t : JobTable) (r : ℕ) (h : Heap) (kind : JobKind) (unit : UnitId)
    → (h.job r).id ≡ r
    → (h.job r).unit ≡ unit
    → get t.t_id r ≡ none
    → Suspends.insert_suspend (uv_pad t.t_unit unit) r false h
      ≡ some (with_job (uv_pad t.t_unit unit) kind r, h)
    → insert_suspend_job t r h ≡ some (inserted (table_with t unit kind r) h)
unfolding insert_suspend_job insert_suspend_uv
insert_suspend_steps t r h kind unit i u g e = ground (arith, i, u, g, e)

-- The job, once `init_attr` has set the attributes that its mode asks for.
record IsInited (id : ℕ) (unit : UnitId) (kind : JobKind) (j : Job) : Type 0 where
  same_id : j.id ≡ id
  same_unit : j.unit ≡ unit
  same_kind : j.kind ≡ kind

init_attr_lem :
    (id : ℕ) (unit : UnitId) (kind : JobKind) (mode : JobMode)
    → (j : Job) × (init_attr (new_job id unit kind) mode ≡ some j) × IsInited id unit kind j
unfolding init_attr new_job
init_attr_lem id unit kind mode =
    (_, refl, record { same_id = refl; same_unit = refl; same_kind = refl })

-- The stage after a job was recorded.
pub record IsRecorded (s : Stage) (unit : UnitId) (kind : JobKind) (s' : Stage) : Type 0 where
  pub stage : IsStage s'
  pub stages : (v : UnitId) (j : JobKind) → staged s' v j ≡ (unit == v && kind == j || staged s v j)
  pub one_id : length s'.ja.ids ≡ suc (length s.ja.ids)

record_new_steps :
    (s : Stage) (unit : UnitId) (kind : JobKind) (mode : JobMode) (id : ℕ) (ja : JobAlloc) (j : Job)
    (t : JobTable)
    → alloc_id (length s.ja.ids + 1) s.ja ≡ some (id, ja)
    → init_attr (new_job id unit kind) mode ≡ some j
    → insert_suspend_job s.table id
        (write (write s.heap id (new_job id unit kind) s.heap.rentry) id j s.heap.rentry)
      ≡ some (
          inserted t
            (write (write s.heap id (new_job id unit kind) s.heap.rentry) id j s.heap.rentry))
    → record_new s unit kind mode
      ≡ some (record {
        table = t;
        ja = ja;
        heap = write (write s.heap id (new_job id unit kind) s.heap.rentry) id j s.heap.rentry;
      })
unfolding record_new alloc write
record_new_steps s unit kind mode id ja j t a i e = ground (arith, a, i, e, nat_eq.beq_iff id id)

staged-with :
    (t : JobUnitTable) (unit : UnitId) (kind : JobKind) (r : ℕ) (v : UnitId) (j : JobKind)
    → IsPad t unit (uv_pad t unit)
    → is_some (get_suspend (put_uv t unit (with_job (uv_pad t unit) kind r)) v j)
      ≡ (unit == v && kind == j || is_some (get_suspend t v j))
unfolding get_suspend
staged-with t unit kind r v j p = ground (
  arith,
  get-insert t.t_data unit (with_job (uv_pad t unit) kind r) v,
  get-insert (uv_pad t unit).suspends kind r j,
  p.waits j,
  string_eq.beq_iff unit v,
)

-- Neither the unit nor its record has a trigger after a job was inserted.
calm-with :
    (t : JobUnitTable) (unit : UnitId) (kind : JobKind) (r : ℕ)
    → ((u : UnitId) (uv : JobUnit) → get t.t_data u ≡ some uv → uv.trigger ≡ none)
    → IsPad t unit (uv_pad t unit)
    → (u : UnitId) (uv : JobUnit)
    → get (insert t.t_data unit (with_job (uv_pad t unit) kind r)) u ≡ some uv
    → uv.trigger ≡ none
calm-with t unit kind r c p u uv e = elim (Bool-cases (unit == u)) [
  | inl same ↦
      ground
        (arith, same, e, get-insert t.t_data unit (with_job (uv_pad t unit) kind r) u, p.no_trigger)
  | inr other ↦
      c u uv
        (ground (arith, other, e, get-insert t.t_data unit (with_job (uv_pad t unit) kind r) u))
]

ids-with :
    (ids : List ℕ) (m : HashMap ℕ ℕ) (r : ℕ)
    → ((id : ℕ) → contains ids id ≡ false → get m id ≡ none)
    → (id : ℕ) → contains (r ∷ ids) id ≡ false
    → get (insert m r r) id ≡ none
ids-with ids m r f id c = ground (arith, f id, c, get-insert m r r id)

-- A kind that is not staged for the unit is recorded, while there are ids left.
pub record_new_lem :
    (s : Stage) (unit : UnitId) (kind : JobKind) (mode : JobMode)
    → IsStage s
    → length s.ja.ids < 4294967296
    → job_is_basic_op kind ≡ true
    → staged s unit kind ≡ false
    → (s' : Stage) × (record_new s unit kind mode ≡ some s') × IsRecorded s unit kind s'
unfolding get_suspend
record_new_lem s unit kind mode good room basic new =
    let (id, ja, a, al) = alloc_id_lem s.ja room in
    let (j, i, same) = init_attr_lem id unit kind mode in
    let t = s.table in
    let h1 = write s.heap id (new_job id unit kind) s.heap.rentry in
    let h2 = write h1 id j s.heap.rentry in
    let read = read-write_self h1 id j s.heap.rentry in
    let p = pad_lem t.t_unit unit (good.calm unit) in
    let inserted_uv =
      insert_suspend_lem (uv_pad t.t_unit unit) id kind h2 (ground (arith, read, same.same_kind))
        basic p.no_trigger (ground (arith, p.waits kind, new)) in
    let done =
      insert_suspend_steps t id h2 kind unit (ground (arith, read, same.same_id))
        (ground (arith, read, same.same_unit)) (good.ids id al.fresh) inserted_uv in
    (
      _,
      record_new_steps s unit kind mode id ja j (table_with t unit kind id) a i done,
      record {
        stage = record {
          calm = calm-with t.t_unit unit kind id good.calm p;
          ids = rw al.ids (ids-with s.ja.ids t.t_id id good.ids);
        };
        stages = λ v k. staged-with t.t_unit unit kind id v k p;
        one_id = ground (arith, al.ids);
      },
    )

-- And recording makes sure that it is staged, whether it was before or not.
pub record_suspend_new :
    (s s' : Stage) (unit : UnitId) (kind : JobKind) (mode : JobMode)
    → staged s unit kind ≡ false
    → record_new s unit kind mode ≡ some s'
    → record_suspend s unit kind mode ≡ some (true, s')
unfolding record_suspend
record_suspend_new s s' unit kind mode new e = ground (arith, new, e)

pub record_suspend_old :
    (s : Stage) (unit : UnitId) (kind : JobKind) (mode : JobMode)
    → staged s unit kind ≡ true
    → record_suspend s unit kind mode ≡ some (false, s)
unfolding record_suspend
record_suspend_old s unit kind mode old = ground (arith, old)
