-- ===== src/Job/Rentry.antt =====
-- core/bin/job/rentry.rs: the reliability database of the jobs, which outlives the process.
-- A unit is named by its id.
use sysmaster.Base.{
  Bool, true, ◌&&◌, ◌≡◌, ◌↔◌, String, Option, some, Eq, ◌==◌, HashMap, get, insert, remove, assert,
  string_eq, ◌>>◌, arith,
}
use sysmaster.Job.Kind.{JobKind, JobAttr, job_is_basic_op, kind_eq}

abbrev pub UnitId : Type 0
UnitId = String

-- `JobReTrigData`
pub record JobReTrigData : Type 0 where
  pub kind : JobKind
  pub attr : JobAttr

-- `JobReSuspKey`
pub record JobReSuspKey : Type 0 where
  pub unit_id : UnitId
  pub kind : JobKind

abbrev pub key_beq : JobReSuspKey → JobReSuspKey → Bool
key_beq a b = a.unit_id == b.unit_id && a.kind == b.kind

pub key_beq_iff : (a b : JobReSuspKey) → (key_beq a b ≡ true) ↔ (a ≡ b)
key_beq_iff a b =
    ground (arith, string_eq.beq_iff a.unit_id b.unit_id, kind_eq.beq_iff a.kind b.kind)

instance abbrev pub key_eq : Eq JobReSuspKey
key_eq = record { beq = key_beq; beq_iff = key_beq_iff }

pub record JobRe : Type 0 where
  pub trigger : HashMap UnitId JobReTrigData
  pub suspends : HashMap JobReSuspKey JobAttr

unfoldable pub trigger_insert : JobRe → UnitId → JobKind → JobAttr → Option JobRe
trigger_insert re unit_id kind attr = do
  assert (job_is_basic_op kind)
  some (record re { trigger = insert re.trigger unit_id (record { kind = kind; attr = attr }) })

unfoldable pub trigger_remove : JobRe → UnitId → JobRe
trigger_remove re unit_id = record re { trigger = remove re.trigger unit_id }

unfoldable pub trigger_get : JobRe → UnitId → Option JobReTrigData
trigger_get re unit_id = get re.trigger unit_id

unfoldable pub suspends_insert : JobRe → UnitId → JobKind → JobAttr → Option JobRe
suspends_insert re unit_id kind attr = do
  assert (job_is_basic_op kind)
  some
      (record re { suspends = insert re.suspends (record { unit_id = unit_id; kind = kind }) attr })

unfoldable pub suspends_remove : JobRe → UnitId → JobKind → JobRe
suspends_remove re unit_id kind = record re {
  suspends = remove re.suspends (record { unit_id = unit_id; kind = kind });
}

unfoldable pub suspends_get : JobRe → UnitId → JobKind → Option JobAttr
suspends_get re unit_id kind = get re.suspends (record { unit_id = unit_id; kind = kind })
