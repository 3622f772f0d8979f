-- ===== src/Job/Manager/TriggerMerge.antt =====
-- core/bin/job/manager.rs: what `rentry_trigger_merge` makes of the running job of a unit.
use sysmaster.Base.{
  Bool, true, false, not, ◌||◌, ◌≡◌, refl, Option, none, some, insert, get-insert, ◌==◌, string_eq,
  arith, if◌then◌else◌,
}
use sysmaster.Job.Kind.{JobKind, stop, restart, verify, nop, kind_eq, or_attr, job_is_basic_op}
use sysmaster.Job.Rentry.{UnitId, JobRe, JobReTrigData, trigger_get, trigger_insert}
use sysmaster.Job.Manager.{job_merge_trigger_iskeep, job_merge_trigger_map, rentry_trigger_merge}

-- Does the kind stay? A start, a reload and a restart become a restart.
abbrev pub is_kept : JobKind → Bool
is_kept kind = kind == stop || kind == verify || kind == nop

abbrev pub kind_after : JobKind → JobKind
kind_after kind = if is_kept kind then kind else restart

keep_lem :
    (kind : JobKind)
    → job_is_basic_op kind ≡ true
    → job_merge_trigger_iskeep kind ≡ some (is_kept kind)
unfolding job_merge_trigger_iskeep job_is_basic_op
keep_lem kind b = ground (arith, b)

map_lem :
    (kind : JobKind)
    → job_is_basic_op kind ≡ true
    → job_merge_trigger_map kind ≡ some (kind_after kind)
unfolding job_merge_trigger_map
map_lem kind b = rw (keep_lem kind b) refl

after-basic :
    (kind : JobKind) → job_is_basic_op kind ≡ true → job_is_basic_op (kind_after kind) ≡ true
unfolding job_is_basic_op
after-basic kind b = ground (arith, b)

-- The entry that is there afterwards.
abbrev pub entry_after : Bool → Option JobReTrigData → JobReTrigData
entry_after force none = record {
  kind = restart;
  attr = record { ignore_order = true; irreversible = true; force = force; no_relevancy = true };
}
entry_after force (some old) = record {
  kind = kind_after old.kind;
  attr = record {
    ignore_order = true;
    irreversible = true;
    force = force || old.attr.force;
    no_relevancy = not (is_kept old.kind) || old.attr.no_relevancy;
  };
}

-- Is the kind of the entry, if there is one, a basic one?
abbrev pub is_basic_entry : Option JobReTrigData → Bool
is_basic_entry none = true
is_basic_entry (some old) = job_is_basic_op old.kind

merge_steps :
    (re : JobRe) (u : UnitId) (force : Bool) (old : Option JobReTrigData)
    → trigger_get re u ≡ old
    → is_basic_entry old ≡ true
    → rentry_trigger_merge re u force
      ≡ some (record re { trigger = insert re.trigger u (entry_after force old) })
unfolding rentry_trigger_merge trigger_insert or_attr job_is_basic_op
merge_steps re u force none e b = ground (arith, e, keep_lem restart refl, map_lem restart refl)
merge_steps re u force (some old) e b =
    ground (arith, e, b, keep_lem old.kind b, map_lem old.kind b, after-basic old.kind b)

other-trigger :
    (re : JobRe) (u v : UnitId) (d : JobReTrigData)
    → (u == v) ≡ false
    → trigger_get (record re { trigger = insert re.trigger u d }) v ≡ trigger_get re v
unfolding trigger_get
other-trigger re u v d ne = ground (arith, ne, get-insert re.trigger u d v)

same-trigger :
    (re : JobRe) (u : UnitId) (d : JobReTrigData)
    → trigger_get (record re { trigger = insert re.trigger u d }) u ≡ some d
unfolding trigger_get
same-trigger re u d = ground (arith, get-insert re.trigger u d u, string_eq.beq_iff u u)

-- If the unit's running job in the database is of a basic kind, or there is none, then merging does not
-- panic. Afterwards the database has a running job of the unit that ignores the order and is
-- irreversible, and is forced if that was asked for or it was before: a stop, verify or nop keeps its
-- kind, and its relevancy; a start, a reload or a restart becomes a restart without relevancy; and so
-- does none. The other units' running jobs and all that wait stay.
pub rentry_trigger_merge_lem :
    (re : JobRe) (u : UnitId) (force : Bool)
    → is_basic_entry (trigger_get re u) ≡ true
    → (re' : JobRe) × (rentry_trigger_merge re u force ≡ some re')
      × (trigger_get re' u ≡ some (entry_after force (trigger_get re u)))
      × ((v : UnitId) → (u == v) ≡ false → trigger_get re' v ≡ trigger_get re v)
      × (re'.suspends ≡ re.suspends)
rentry_trigger_merge_lem re u force b =
    let new = entry_after force (trigger_get re u) in
    (
      _,
      merge_steps re u force (trigger_get re u) refl b,
      same-trigger re u new,
      λ v ne. other-trigger re u v new ne,
      refl,
    )
