-- ===== src/Job/Junit/Reshuffle.antt =====
-- core/bin/job/junit.rs: merging the jobs that wait with each other, and putting them in order.
use sysmaster.Base.{
  ℕ, Bool, true, false, not, ◌&&◌, List, [], ◌∷◌, ◌++◌, Option, none, some, get, remove, length,
  contains_key, leb, assert, ◌>>=◌, ◌>>◌, if◌then◌else◌,
}
use sysmaster.Unit.State.{is_active_or_reloading}
use sysmaster.Job.Kind.{JobKind, start, stop, reload, restart, verify, nop, kind_eq, merged}
use sysmaster.Job.Entry.{Units}
use sysmaster.Job.Heap.{Heap, finish_all}
use sysmaster.Job.Junit.{JobUnit, update_ready, is_suspends_conflict}

unfoldable pub jobs_suspends_remove : JobUnit → JobKind → List ℕ → JobUnit × List ℕ
jobs_suspends_remove d kind del_jobs = elim (get d.suspends kind) [
  | none ↦ (d, del_jobs)
  | some job ↦ (record d { suspends = remove d.suspends kind }, del_jobs ++ job ∷ [])
]

-- `start` and `reload` are merged into `restart`.
unfoldable pub jobs_ms_start_and_reload : JobUnit → List ℕ → JobUnit × List ℕ
unfolding jobs_suspends_remove
jobs_ms_start_and_reload d del_jobs =
    let (d', dels) = jobs_suspends_remove d start del_jobs in jobs_suspends_remove d' reload dels

-- `start` is merged into `reload` at an active unit, and `reload` into `start` at another.
unfoldable pub jobs_ms_start_or_reload : Units → JobUnit → List ℕ → JobUnit × List ℕ
unfolding jobs_suspends_remove
jobs_ms_start_or_reload u d del_jobs =
    if is_active_or_reloading (u.active_state d.unit)
    then jobs_suspends_remove d start del_jobs
    else jobs_suspends_remove d reload del_jobs

unfoldable pub jobs_merge_suspend : Units → JobUnit → List ℕ → JobUnit × List ℕ
unfolding contains_key jobs_ms_start_and_reload jobs_ms_start_or_reload
jobs_merge_suspend u d del_jobs =
    if contains_key d.suspends stop
    then (d, del_jobs)
    else if contains_key d.suspends restart
    then jobs_ms_start_and_reload d del_jobs
    else if contains_key d.suspends start && contains_key d.suspends reload
    then jobs_ms_start_or_reload u d del_jobs
    else (d, del_jobs)

unfoldable pub sq_order_pushback : JobUnit → JobKind → JobUnit
sq_order_pushback d kind = elim (get d.suspends kind) [
  | none ↦ d
  | some job ↦ record d { sq = d.sq ++ job ∷ [] }
]

unfoldable pub sq_order : JobUnit → Option JobUnit
unfolding contains_key sq_order_pushback
sq_order d =
    let d0 = record d { sq = [] } in
    if contains_key d.suspends stop then some (sq_order_pushback d0 stop) else do
      let d1 = sq_order_pushback (sq_order_pushback (sq_order_pushback d0 restart) start) reload
      assert (leb (length d1.sq) 1)
      let d2 = sq_order_pushback (sq_order_pushback d1 verify) nop
      assert (leb (length d2.sq) 3)
      some d2

abbrev pub is_interrupter : JobKind → Bool
is_interrupter stop = true
is_interrupter restart = true
is_interrupter _ = false

-- The test of `jobs_merge_trigger_prepare`: the trigger, and the front of `sq`.
abbrev pub interrupt_match : Option ℕ → List ℕ → JobUnit → Heap → JobUnit
interrupt_match (some t) (r ∷ rs) d h = record d { interrupt = is_interrupter (h.job r).kind }
interrupt_match (some t) [] d h = d
interrupt_match none sq d h = d

unfoldable pub jobs_merge_trigger_prepare : JobUnit → Heap → Option JobUnit
jobs_merge_trigger_prepare d h = do assert d.order; some (interrupt_match d.trigger d.sq d h)

-- The part of `reshuffle` that runs unless the suspends are in order.
unfoldable pub reorder : Units → JobUnit → Option (JobUnit × List ℕ)
reorder u d = do
  let (d', merge_jobs) = jobs_merge_suspend u d []
  d'' ← sq_order d'
  some (record d'' { order = true }, merge_jobs)

unfoldable pub reshuffle : Units → JobUnit → Heap → Option (List ℕ × JobUnit × Heap)
reshuffle u d h = do
  assert (not (is_suspends_conflict d))
  (d1, merge_jobs) ← if d.order then some (d, []) else reorder u d
  d2 ← jobs_merge_trigger_prepare d1 h
  d3 ← update_ready d2
  h' ← finish_all merge_jobs merged h
  some (merge_jobs, d3, h')
