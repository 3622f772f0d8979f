-- ===== src/Job/Kind.antt =====
-- core/bin/job/rentry.rs and core/bin/job/entry.rs: kinds, attributes, results and stages of jobs.
use sysmaster.Base.{
  ℕ, Bool, true, false, ◌||◌, ◌≡◌, ◌↔◌, refl, List, [], ◌∷◌, some, Eq, nat_beq, value_at,
  eq_of_code,
}

pub data JobKind : Type 0 where
  start stop reload restart verify nop try_reload try_restart reload_or_start : JobKind

abbrev pub kind_code : JobKind → ℕ
kind_code start = 0
kind_code stop = 1
kind_code reload = 2
kind_code restart = 3
kind_code verify = 4
kind_code nop = 5
kind_code try_reload = 6
kind_code try_restart = 7
kind_code reload_or_start = 8

abbrev pub all_kinds : List JobKind
all_kinds =
    start ∷ stop ∷ reload ∷ restart ∷ verify ∷ nop ∷ try_reload ∷ try_restart ∷ reload_or_start ∷ []

pub kind_index : (k : JobKind) → value_at all_kinds (kind_code k) ≡ some k
kind_index start = refl
kind_index _ = refl

pub kind_beq_iff : (a b : JobKind) → (nat_beq (kind_code a) (kind_code b) ≡ true) ↔ (a ≡ b)
kind_beq_iff = eq_of_code kind_code all_kinds kind_index

instance abbrev pub kind_eq : Eq JobKind
kind_eq = record { beq = λ a b. nat_beq (kind_code a) (kind_code b); beq_iff = kind_beq_iff }

unfoldable pub job_is_basic_op : JobKind → Bool
job_is_basic_op try_reload = false
job_is_basic_op try_restart = false
job_is_basic_op reload_or_start = false
job_is_basic_op _ = true

pub record JobAttr : Type 0 where
  pub ignore_order : Bool
  pub irreversible : Bool
  pub force : Bool
  pub no_relevancy : Bool

-- `JobAttr::or`
unfoldable pub or_attr : JobAttr → JobAttr → JobAttr
or_attr a b = record {
  ignore_order = a.ignore_order || b.ignore_order;
  irreversible = a.irreversible || b.irreversible;
  force = a.force || b.force;
  no_relevancy = a.no_relevancy || b.no_relevancy;
}

pub data JobResult : Type 0 where
  done cancelled time_out failed dependency skipped : JobResult
  invalid assertion un_supported collected once merged : JobResult

pub data JobStage : Type 0 where
  init wait running : JobStage
  end : JobResult → JobStage

abbrev pub is_init : JobStage → Bool
is_init init = true
is_init _ = false

abbrev pub is_wait : JobStage → Bool
is_wait wait = true
is_wait _ = false

abbrev pub is_running : JobStage → Bool
is_running running = true
is_running _ = false

pub data JobMode : Type 0 where
  fail replace replace_irreversible isolate flush : JobMode
  ignore_dependencies ignore_requirements trigger : JobMode

abbrev pub mode_code : JobMode → ℕ
mode_code fail = 0
mode_code replace = 1
mode_code replace_irreversible = 2
mode_code isolate = 3
mode_code flush = 4
mode_code ignore_dependencies = 5
mode_code ignore_requirements = 6
mode_code trigger = 7

abbrev pub all_modes : List JobMode
all_modes =
    fail ∷ replace ∷ replace_irreversible ∷ isolate ∷ flush ∷ ignore_dependencies
    ∷ ignore_requirements ∷ trigger ∷ []

pub mode_index : (m : JobMode) → value_at all_modes (mode_code m) ≡ some m
mode_index fail = refl
mode_index _ = refl

pub mode_beq_iff : (a b : JobMode) → (nat_beq (mode_code a) (mode_code b) ≡ true) ↔ (a ≡ b)
mode_beq_iff = eq_of_code mode_code all_modes mode_index

instance abbrev pub mode_eq : Eq JobMode
mode_eq = record { beq = λ a b. nat_beq (mode_code a) (mode_code b); beq_iff = mode_beq_iff }
