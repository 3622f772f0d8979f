-- ===== src/Job/Transaction/Pulls.antt =====
-- core/bin/job/transaction.rs: what a job pulls in, as a specification of the expansion.
use sysmaster.Base.{◌||◌, ◌≡◌, List, [], ◌∷◌, ◌++◌, ◌==◌, string_eq, if◌then◌else◌}
use sysmaster.Unit.Relation.AtomNames.{
  unit_atom_pull_in_start, unit_atom_pull_in_start_ignored, unit_atom_pull_in_verify,
  unit_atom_pull_in_stop, unit_atom_pull_in_stop_ignored, unit_atom_propagate_stop,
  unit_atom_propagate_restart, unit_atom_propagates_reload_to,
}
use sysmaster.Unit.Deps.{DepTable, gets_atom}
use sysmaster.Job.Kind.{
  JobKind, start, stop, reload, restart, verify, try_reload, try_restart, kind_eq, JobMode,
  ignore_dependencies, ignore_requirements, mode_eq,
}
use sysmaster.Job.Rentry.{UnitId}
use sysmaster.Job.Process.{job_merge_unit}
use sysmaster.Job.Transaction.{TransDb}

-- A unit, and a kind of job for it.
abbrev pub Ask : Type 0
Ask = UnitId × JobKind

abbrev pub asks : List UnitId → JobKind → List Ask
asks [] kind = []
asks (other ∷ others) kind = (other, kind) ∷ asks others kind

unfoldable pub start_pulls : DepTable → UnitId → List Ask
start_pulls deps u =
    asks (gets_atom deps u unit_atom_pull_in_start) start
    ++ (asks (gets_atom deps u unit_atom_pull_in_start_ignored) start
        ++ (asks (gets_atom deps u unit_atom_pull_in_verify) verify
            ++ (asks (gets_atom deps u unit_atom_pull_in_stop) stop
                ++ asks (gets_atom deps u unit_atom_pull_in_stop_ignored) stop)))

abbrev pub kind_pulls : DepTable → UnitId → JobKind → List Ask
kind_pulls deps u start = start_pulls deps u
kind_pulls deps u stop = asks (gets_atom deps u unit_atom_propagate_stop) stop
kind_pulls deps u reload = asks (gets_atom deps u unit_atom_propagates_reload_to) try_reload
kind_pulls deps u restart =
    start_pulls deps u ++ asks (gets_atom deps u unit_atom_propagate_restart) try_restart
kind_pulls deps u _ = []

-- What a job pulls in: nothing in the two modes that ignore dependencies.
unfoldable pub pulls : DepTable → JobMode → UnitId → JobKind → List Ask
pulls deps mode u kind =
    if mode == ignore_dependencies || mode == ignore_requirements
    then []
    else kind_pulls deps u kind

-- The kind of the job that is recorded for an ask.
abbrev pub mapped : TransDb → UnitId → JobKind → JobKind
mapped db unit kind = job_merge_unit db.units kind unit

-- A predicate on jobs, of the jobs that asks amount to.
abbrev pub AllAsked : TransDb → (UnitId → JobKind → Type 0) → List Ask → Type 0
AllAsked db R [] = Unit
AllAsked db R ((w, i) ∷ xs) = R w (mapped db w i) × AllAsked db R xs

pub AllAsked-append :
    (db : TransDb) (R : UnitId → JobKind → Type 0) (xs ys : List Ask)
    → AllAsked db R xs
    → AllAsked db R ys
    → AllAsked db R (xs ++ ys)
AllAsked-append db R [] ys h k = k
AllAsked-append db R ((w, i) ∷ xs) ys (p, h) k = (p, AllAsked-append db R xs ys h k)

pub AllAsked-split :
    (db : TransDb) (R : UnitId → JobKind → Type 0) (xs ys : List Ask)
    → AllAsked db R (xs ++ ys)
    → AllAsked db R xs × AllAsked db R ys
AllAsked-split db R [] ys h = (tt, h)
AllAsked-split db R ((w, i) ∷ xs) ys (p, h) =
    let (a, b) = AllAsked-split db R xs ys h in ((p, a), b)

pub AllAsked-map :
    (db : TransDb) (R S : UnitId → JobKind → Type 0) (xs : List Ask)
    → ((v : UnitId) (j : JobKind) → R v j → S v j)
    → AllAsked db R xs
    → AllAsked db S xs
AllAsked-map db R S [] f h = tt
AllAsked-map db R S ((w, i) ∷ xs) f (p, h) = (f w (mapped db w i) p, AllAsked-map db R S xs f h)

-- The jobs that a request leads to: its own, and all that these pull in.
pub data Pulled (db : TransDb) (mode : JobMode) (unit : UnitId) (kind : JobKind)
    : UnitId → JobKind → Type 0 where
  asked : Pulled db mode unit kind unit (mapped db unit kind)
  pulled :
      (v : UnitId) (j : JobKind) (xs ys : List Ask) (w : UnitId) (i : JobKind)
      → Pulled db mode unit kind v j
      → pulls db.deps mode v j ≡ xs ++ (w, i) ∷ ys
      → Pulled db mode unit kind w (mapped db w i)
