-- ===== src/Job/Junit/Flush.antt =====
-- core/bin/job/junit.rs: flushing the jobs that wait, as isolating and replacing do.
use sysmaster.Base.{ℕ, true, false, ◌≡◌, refl, none, some, [], arith, values}
use sysmaster.Job.Kind.{cancelled, kind_eq}
use sysmaster.Job.Entry.{Units}
use sysmaster.Job.Heap.{Heap, finish_all}
use sysmaster.Job.Heap.Finish.{IsEnded, finish_all_lem}
use sysmaster.Job.Junit.{JobUnit, update_ready}
use sysmaster.Job.Junit.Suspends.{flush_suspends}
use sysmaster.Job.Junit.Reshuffle.{reshuffle}
use sysmaster.Job.Junit.Kept.{IsKept, values-IsDistinct, values-AreWaiting}
use sysmaster.Job.Junit.Reshuffled.{reshuffle_stale}

-- The unit after its jobs were flushed.
abbrev pub flushed : JobUnit → JobUnit
flushed d = record d { suspends = []; order = false; dirty = true; ready = false }

flush_steps :
    (d : JobUnit) (h : Heap) {h' : Heap}
    → finish_all (values d.suspends) cancelled h ≡ some h'
    → flush_suspends d h ≡ some (values d.suspends, flushed d, h')
unfolding flush_suspends update_ready
flush_steps d h e = ground arith

-- Flushing a unit whose jobs are kept never panics: each job that waited ends as cancelled, with no
-- suspend entry left in the database, no other job changes, and nothing waits at the unit.
pub flush_suspends_lem :
    (d : JobUnit) (h : Heap)
    → IsKept d h
    → (h' : Heap) × (flush_suspends d h ≡ some (values d.suspends, flushed d, h'))
      × IsEnded h (values d.suspends) cancelled h'
flush_suspends_lem d h kept =
    let (h', e, ended) =
      finish_all_lem (values d.suspends) cancelled h (λ x. cc)
        (values-IsDistinct h d.suspends kept.unique kept.filed)
        (values-AreWaiting h d.suspends kept.unique kept.filed) in
    (h', flush_steps d h e, ended)

-- If the jobs of a unit are kept, its trigger is marked to be interrupted, and it is not paused,
-- then flushing it succeeds and reshuffling it after that panics.
pub flush_interrupted_panics :
    (u : Units) (d : JobUnit) (h : Heap) (t : ℕ)
    → IsKept d h
    → d.trigger ≡ some t
    → d.interrupt ≡ true
    → d.pause ≡ false
    → (h' : Heap) × (flush_suspends d h ≡ some (values d.suspends, flushed d, h'))
      × (reshuffle u (flushed d) h' ≡ none)
flush_interrupted_panics u d h t kept e i p =
    let (h', ok, ended) = flush_suspends_lem d h kept in
    (h', ok, reshuffle_stale u (flushed d) h' t e i p refl refl)
