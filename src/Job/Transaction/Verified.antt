-- ===== src/Job/Transaction/Verified.antt =====
-- core/bin/job/transaction.rs: when `job_trans_verify` lets a stage into the jobs.
use sysmaster.Base.{
  Bool, true, false, not, ◌&&◌, ◌||◌, ◌≡◌, refl, [], ◌∷◌, Option, none, some, HashMap, get, ◌==◌,
  string_eq, if◌then◌else◌, arith, inl, inr, Option-cases,
}
use sysmaster.Job.Kind.{JobMode, fail, mode_eq}
use sysmaster.Job.Rentry.{UnitId}
use sysmaster.Job.Heap.{Heap}
use sysmaster.Job.Junit.{JobUnit, is_suspends_irreversible}
use sysmaster.Job.Junit as Junit
use sysmaster.Job.Table.Units.{
  any_conflict, is_suspends_conflict_uv, any_conflict_with, is_suspends_conflict_with_uv,
  replaceable_at, all_replaceable, is_suspends_replace_with_uv,
}
use sysmaster.Job.Table.Jobs.{JobTable}
use sysmaster.Job.Transaction.{
  ok, err, err_conflict, trans_verify_is_conflict, trans_verify_is_destructive, job_trans_verify,
}

-- May a unit's jobs be replaced by those of the stage, if the two conflict?
abbrev pub yields_at : JobUnit → Option JobUnit → Heap → Bool
yields_at uv none h = true
yields_at uv (some o) h =
    not (Junit.is_suspends_conflict_with uv o) || not (is_suspends_irreversible uv h)

unfoldable pub all_yield : HashMap UnitId JobUnit → HashMap UnitId JobUnit → Heap → Bool
all_yield [] o h = true
all_yield ((unit, uv) ∷ m) o h = yields_at uv (get o unit) h && all_yield m o h

replace_lem :
    (d o : JobUnit) (h : Heap)
    → Junit.is_suspends_conflict d ≡ false
    → Junit.is_suspends_conflict o ≡ false
    → Junit.is_suspends_replace_with d o h
      ≡ some (not (Junit.is_suspends_conflict_with d o) || not (is_suspends_irreversible d h))
unfolding Junit.is_suspends_conflict Junit.is_suspends_conflict_with Junit.is_suspends_replace_with
replace_lem d o h c e = ground (arith, c, e)

get-calm :
    (m : HashMap UnitId JobUnit) (u : UnitId) (uv : JobUnit)
    → any_conflict m ≡ false
    → get m u ≡ some uv
    → Junit.is_suspends_conflict uv ≡ false
unfolding any_conflict get
get-calm [] u uv c e = cc
get-calm ((v, w) ∷ m) u uv c e = ground (arith, get-calm m u uv, c, e)

replaceable_lem :
    (uv : JobUnit) (o : HashMap UnitId JobUnit) (u : UnitId) (h : Heap)
    → Junit.is_suspends_conflict uv ≡ false
    → any_conflict o ≡ false
    → replaceable_at uv (get o u) h ≡ some (yields_at uv (get o u) h)
replaceable_lem uv o u h c d = elim (Option-cases (get o u)) [
  | inl e ↦ rw e refl
  | inr (w, e) ↦ rw e (replace_lem uv w h c (get-calm o u w d e))
]

all_replaceable_lem :
    (m o : HashMap UnitId JobUnit) (h : Heap)
    → any_conflict m ≡ false
    → any_conflict o ≡ false
    → all_replaceable m o h ≡ some (all_yield m o h)
unfolding all_replaceable all_yield any_conflict
all_replaceable_lem [] o h c d = refl
all_replaceable_lem ((u, uv) ∷ m) o h c d = ground (
  arith,
  replaceable_lem uv o u h (ground (arith, c)) d,
  all_replaceable_lem m o h (ground (arith, c)) d,
)

-- Jobs that do not conflict with the stage yield to it.
calm-yield :
    (m o : HashMap UnitId JobUnit) (h : Heap)
    → any_conflict_with m o ≡ false
    → all_yield m o h ≡ true
unfolding any_conflict_with all_yield
calm-yield [] o h c = refl
calm-yield ((u, uv) ∷ m) o h c = elim (Option-cases (get o u)) [
  | inl e ↦ ground (arith, c, e, calm-yield m o h)
  | inr (w, e) ↦ ground (arith, c, e, calm-yield m o h)
]

-- What the verification accepts.
abbrev pub accepts : JobTable → JobTable → JobMode → Heap → Bool
accepts stage jobs mode h =
    not (is_suspends_conflict_uv stage.t_unit)
    && (if mode == fail
        then not (is_suspends_conflict_with_uv jobs.t_unit stage.t_unit)
        else all_yield jobs.t_unit.t_data stage.t_unit.t_data h)

-- If no unit of the jobs conflicts with itself, then the verification does not panic. It answers `ok` or
-- `Conflict`, and `ok` exactly if no unit of the stage conflicts with itself and, in the mode `Fail`,
-- no unit's jobs conflict with those of the stage, in another mode, none that conflict hold an
-- irreversible one.
pub job_trans_verify_lem :
    (stage jobs : JobTable) (mode : JobMode) (h : Heap)
    → is_suspends_conflict_uv jobs.t_unit ≡ false
    → job_trans_verify stage jobs mode h
      ≡ some (if accepts stage jobs mode h then ok else err err_conflict)
unfolding job_trans_verify trans_verify_is_conflict trans_verify_is_destructive
    is_suspends_conflict_uv is_suspends_conflict_with_uv is_suspends_replace_with_uv
job_trans_verify_lem stage jobs mode h c = ground (
  arith,
  c,
  all_replaceable_lem jobs.t_unit.t_data stage.t_unit.t_data h c,
  calm-yield jobs.t_unit.t_data stage.t_unit.t_data h,
)
