-- ===== src/Job/Table/Ready.antt =====
-- core/bin/job/table.rs: the queue of the units that are ready.
use Prim.Native.Nat.{Ordering}
use Prim.Native.String.{compare}
use sysmaster.Base.{
  Bool, true, false, not, ◌&&◌, List, [], ◌∷◌, Option, none, some, get, remove, contains, string_eq,
  assert, ◌>>=◌, ◌>>◌, if◌then◌else◌, set_remove,
}
use sysmaster.Job.Rentry.{UnitId}
use sysmaster.Job.Junit.{JobUnit, is_nil, is_empty}
use sysmaster.Job.Table.{JobUnitTable, put_uv}

abbrev pub str_lt : UnitId → UnitId → Bool
str_lt a b = elim (compare a b) [ Ordering.lt ↦ true | _ ↦ false ]

-- `BTreeMap::insert`: a key that is there stays, another goes where the order of the ids has it.
unfoldable pub btree_place : List UnitId → UnitId → List UnitId
btree_place [] u = u ∷ []
btree_place (v ∷ vs) u = let rest = btree_place vs u in if str_lt u v then u ∷ v ∷ vs else v ∷ rest

unfoldable pub btree_insert : List UnitId → UnitId → List UnitId
btree_insert l u = if contains l u then l else btree_place l u

-- `readys` goes back into `t_ready`.
unfoldable pub insert_readys : List UnitId → List UnitId → List UnitId
insert_readys t_ready [] = t_ready
insert_readys t_ready (u ∷ us) = insert_readys (btree_insert t_ready u) us

unfoldable pub readys_backfill : JobUnitTable → JobUnitTable
readys_backfill t =
    if not (is_nil t.readys)
    then record t { t_ready = insert_readys t.t_ready t.readys; readys = [] }
    else t

unfoldable pub readys_fill : JobUnitTable → JobUnitTable
readys_fill t = if is_nil t.readys then record t { readys = t.t_ready; t_ready = [] } else t

unfoldable pub ready_insert : JobUnitTable → UnitId → JobUnit → JobUnitTable
ready_insert t unit uv =
    let t' = readys_backfill t in
    if not uv.up_ready
    then put_uv (record t' { t_ready = btree_insert t'.t_ready unit }) unit
        (record uv { up_ready = true })
    else put_uv t unit uv

unfoldable pub ready_remove : JobUnitTable → UnitId → JobUnit → JobUnitTable
ready_remove t unit uv =
    let t' = readys_backfill t in
    if uv.up_ready
    then put_uv (record t' { t_ready = set_remove t'.t_ready unit }) unit
        (record uv { up_ready = false })
    else put_uv t unit uv

unfoldable pub ready_sync : JobUnitTable → UnitId → JobUnit → JobUnitTable
ready_sync t unit uv = if uv.ready then ready_insert t unit uv else ready_remove t unit uv

-- `Vec::pop`
unfoldable pub pop_last : List UnitId → Option (UnitId × List UnitId)
pop_last [] = none
pop_last (u ∷ us) = elim (pop_last us) [ none ↦ some (u, []) | some (v, vs) ↦ some (v, u ∷ vs) ]

abbrev pub pop_unit : JobUnitTable → UnitId → Option UnitId × JobUnitTable
pop_unit t u =
    if contains t.t_ready u
    then (some u, record t { t_ready = set_remove t.t_ready u })
    else (none, t)

abbrev pub pop_any : JobUnitTable → Option (UnitId × List UnitId) → Option UnitId × JobUnitTable
pop_any t none = (none, t)
pop_any t (some (u, us)) = (some u, record t { readys = us })

unfoldable pub ready_take : JobUnitTable → Option UnitId → Option UnitId × JobUnitTable
ready_take t (some u) = pop_unit (readys_backfill t) u
ready_take t none = let t' = readys_fill t in pop_any t' (pop_last t'.readys)

-- `uv.clear_up_ready()` on the unit that was popped.
abbrev pub clear_up : JobUnitTable → UnitId → Option JobUnit → Option JobUnitTable
clear_up t u none = none
clear_up t u (some uv) = some (put_uv t u (record uv { up_ready = false }))

abbrev pub pop_cleared : Option UnitId × JobUnitTable → Option (Option UnitId × JobUnitTable)
pop_cleared (none, t) = some (none, t)
pop_cleared (some u, t) = do t' ← clear_up t u (get t.t_data u); some (some u, t')

unfoldable pub ready_pop : JobUnitTable → Option UnitId → Option (Option UnitId × JobUnitTable)
ready_pop t unit = pop_cleared (ready_take t unit)

unfoldable pub calc_table_ready : JobUnitTable → Bool
calc_table_ready t = if t.sync then not (is_nil t.t_ready && is_nil t.readys) else false

-- `clear`
unfoldable pub clear_table : JobUnitTable → JobUnitTable
clear_table t = record t { t_data = []; t_ready = []; readys = []; up_ready = false; sync = true }

-- `remove_unit`: the stack of the queue stays as it is.
unfoldable pub remove_unit_uv : JobUnitTable → UnitId → JobUnitTable
remove_unit_uv t unit = record t {
  t_data = remove t.t_data unit;
  t_ready = set_remove t.t_ready unit;
}

unfoldable pub update_up_ready : JobUnitTable → JobUnitTable
update_up_ready t = record t { up_ready = calc_table_ready t }

-- What `try_gc_empty_unit` does with the record of the unit.
abbrev pub gc_with : JobUnitTable → UnitId → Option JobUnit → Option JobUnitTable
gc_with t unit none = none
gc_with t unit (some uv) =
    if is_empty uv
    then assert (not uv.ready)
      >> assert (not uv.up_ready)
      >> some (record t { t_data = remove t.t_data unit; t_ready = set_remove t.t_ready unit })
    else some t

unfoldable pub try_gc_empty_unit : JobUnitTable → UnitId → Option JobUnitTable
try_gc_empty_unit t unit = gc_with t unit (get t.t_data unit)
