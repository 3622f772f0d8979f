-- ===== src/Job/Table/Popped.antt =====
-- core/bin/job/table.rs: what `ready_pop` takes out of the queue.
use sysmaster.Base.{
  true, false, ◌≡◌, refl, ap, Option, none, some, get, insert, string_eq, get-insert, arith,
}
use sysmaster.Job.Rentry.{UnitId}
use sysmaster.Job.Junit.{JobUnit}
use sysmaster.Job.Table.{JobUnitTable, put_uv}
use sysmaster.Job.Table.Ready.{ready_take, pop_cleared, ready_pop}
use sysmaster.Job.Table.Queue.{IsQueued, up_of, marked_up}
use sysmaster.Job.Table.Taken.{is_wanted, IsTaken, IsTake, take_lem}

-- The unit that was popped: it stood in the queue, and it is the only one that has left it.
pub record IsPopped (t : JobUnitTable) (want : Option UnitId) (u : UnitId) (t' : JobUnitTable)
    : Type 0 where
  pub uv : JobUnit
  pub found : get t.t_data u ≡ some uv
  pub was_up : uv.up_ready ≡ true
  pub wanted : is_wanted want u ≡ true
  pub t_data : t'.t_data ≡ insert t.t_data u (marked_up uv false)
  pub sync : t'.sync ≡ t.sync

-- What a pop answers.
abbrev pub PopAnswer : JobUnitTable → Option UnitId → Option UnitId → JobUnitTable → Type 0
PopAnswer t want none t' =
    (t'.t_data ≡ t.t_data)
    × ((v : UnitId) → is_wanted want v ≡ true → up_of (get t.t_data v) ≡ false)
PopAnswer t want (some u) t' = IsPopped t want u t'

abbrev Pops : JobUnitTable → Option UnitId → Option (Option UnitId × JobUnitTable) → Type 0
Pops t want r =
    (o : Option UnitId) × (t' : JobUnitTable) × (r ≡ some (o, t'))
    × IsQueued t'
    × PopAnswer t want o t'

up_found :
    (m : Option JobUnit) → up_of m ≡ true → (uv : JobUnit) × (m ≡ some uv) × (uv.up_ready ≡ true)
up_found none e = cc
up_found (some uv) e = (uv, refl, e)

cleared-IsQueued :
    (t t' : JobUnitTable) (u : UnitId) (uv : JobUnit)
    → IsQueued t
    → IsTaken t u t'
    → IsQueued (put_uv t' u (marked_up uv false))
cleared-IsQueued t t' u uv q k = record {
  marked = λ v.
      ground
        (arith, q.marked v, k.others v, k.data_kept, get-insert t'.t_data u (marked_up uv false) v);
  once_tree = k.once_tree;
  once_stack = k.once_stack;
  split = k.split;
}

Pops-some :
    (t t' : JobUnitTable) (want : Option UnitId) (u : UnitId)
    → IsQueued t
    → IsTaken t u t'
    → is_wanted want u ≡ true
    → Pops t want (pop_cleared (some u, t'))
Pops-some t t' want u q k w =
    let (uv, e, up) = up_found (get t.t_data u) (ground (arith, q.marked u, k.was)) in
    (
      some u,
      put_uv t' u (marked_up uv false),
      ground (arith, e, k.data_kept),
      cleared-IsQueued t t' u uv q k,
      record {
        uv = uv;
        found = e;
        was_up = up;
        wanted = w;
        t_data = ap (λ x. insert x u (marked_up uv false)) k.data_kept;
        sync = k.sync_kept;
      },
    )

Pops-taken :
    (t : JobUnitTable) (want : Option UnitId) (r : Option UnitId × JobUnitTable)
    → IsQueued t
    → IsTake t want r
    → Pops t want (pop_cleared r)
Pops-taken t want (none, t') q (q', d, s, n) =
    (none, t', refl, q', (d, λ v w. ground (arith, q.marked v, n v w)))
Pops-taken t want (some u, t') q (k, w) = Pops-some t t' want u q k w

-- Popping from a well-formed queue does not panic and leaves it well-formed. Either it answers a unit
-- that the caller wanted and that was marked, clears the mark of this unit, and changes no other; or
-- it answers none, changes no unit, and no unit that the caller wanted was marked.
pub ready_pop_lem :
    (t : JobUnitTable) (want : Option UnitId)
    → IsQueued t
    → (o : Option UnitId) × (t' : JobUnitTable) × (ready_pop t want ≡ some (o, t'))
      × IsQueued t'
      × PopAnswer t want o t'
unfolding ready_pop
ready_pop_lem t want q = Pops-taken t want (ready_take t want) q (take_lem t want q)
