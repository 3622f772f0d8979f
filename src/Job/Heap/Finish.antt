-- ===== src/Job/Heap/Finish.antt =====
-- core/bin/job/entry.rs, core/bin/job/junit.rs: the loops that finish a list of waiting jobs.
use sysmaster.Base.{
  ℕ, true, false, ◌≡◌, ◌≢◌, refl, none, some, List, [], ◌∷◌, ◌==◌, nat_eq, contains, All,
  IsDistinct, if◌then◌else◌, arith, get, get-remove, get-remove_self,
}
use sysmaster.Job.Kind.{JobResult, done, wait, end}
use sysmaster.Job.Rentry.{JobRe, JobReSuspKey, suspends_get, suspends_remove, key_eq}
use sysmaster.Job.Entry.{Job, finish_job}
use sysmaster.Job.Heap.{Heap, write, finish_ref, finish_all}

abbrev pub AreWaiting : Heap → List ℕ → Type 0
AreWaiting h = All (λ r. (h.job r).stage ≡ wait)

-- What ending a waiting job does to the heap.
abbrev pub end_one : Heap → ℕ → JobResult → Heap
end_one h r result =
    write h r (record (h.job r) { stage = end result })
      (suspends_remove h.rentry (h.job r).unit (h.job r).kind)

finish_job_wait :
    (j : Job) (re : JobRe) (result : JobResult)
    → j.stage ≡ wait
    → result ≢ done
    → finish_job j result re
      ≡ some (false, record j { stage = end result }, suspends_remove re j.unit j.kind)
unfolding finish_job
finish_job_wait j re result w ne = ground arith

pub finish_ref_wait :
    (h : Heap) (r : ℕ) (result : JobResult)
    → (h.job r).stage ≡ wait
    → result ≢ done
    → finish_ref h r result ≡ some (false, end_one h r result)
unfolding finish_ref
finish_ref_wait h r result w ne = rw (finish_job_wait (h.job r) h.rentry result w ne)

-- The job that `s` refers to, after the jobs `rs` ended.
abbrev pub after_end : Heap → List ℕ → JobResult → ℕ → Job
after_end h rs result s = if contains rs s then record (h.job s) { stage = end result } else h.job s

read-end_one :
    (h : Heap) (r : ℕ) (result : JobResult) (s : ℕ)
    → (end_one h r result).job s
      ≡ (if r == s then record (h.job s) { stage = end result } else h.job s)
unfolding write
read-end_one h r result s = ground (arith)

AreWaiting-end_one :
    (h : Heap) (r : ℕ) (result : JobResult) (rs : List ℕ)
    → contains rs r ≡ false
    → AreWaiting h rs
    → AreWaiting (end_one h r result) rs
AreWaiting-end_one h r result [] a w = tt
AreWaiting-end_one h r result (s ∷ rs) a w =
    (ground (arith, read-end_one h r result s), AreWaiting-end_one h r result rs (ground arith) w.1)

-- What the loop leaves: each of its jobs ended with the result, the others as they were, and no
-- suspend entry of its jobs in the database.
pub record IsEnded (h : Heap) (rs : List ℕ) (result : JobResult) (h' : Heap) : Type 0 where
  pub jobs : (s : ℕ) → h'.job s ≡ after_end h rs result s
  pub entries :
      (s : ℕ) → contains rs s ≡ true → suspends_get h'.rentry (h.job s).unit (h.job s).kind ≡ none
  pub gone :
      (key : JobReSuspKey) → get h.rentry.suspends key ≡ none → get h'.rentry.suspends key ≡ none

IsEnded-cons :
    (h : Heap) (r : ℕ) (rs : List ℕ) (result : JobResult) {h' : Heap}
    → contains rs r ≡ false
    → IsEnded (end_one h r result) rs result h'
    → IsEnded h (r ∷ rs) result h'
unfolding write suspends_get suspends_remove
IsEnded-cons h r rs result apart ended = record {
  jobs = λ s. ground (arith, ended.jobs s, nat_eq.beq_iff s r, nat_eq.beq_iff r s);
  entries = λ s c. ground (
    arith,
    ended.entries s,
    ended.gone (record { unit_id = (h.job r).unit; kind = (h.job r).kind }),
    get-remove_self h.rentry.suspends (record { unit_id = (h.job r).unit; kind = (h.job r).kind }),
    nat_eq.beq_iff s r,
    nat_eq.beq_iff r s,
  );
  gone = λ key g. ground (
    arith,
    ended.gone key,
    get-remove h.rentry.suspends (record { unit_id = (h.job r).unit; kind = (h.job r).kind }) key,
  );
}

pub finish_all_lem :
    (rs : List ℕ) (result : JobResult) (h : Heap)
    → result ≢ done
    → IsDistinct rs
    → AreWaiting h rs
    → (h' : Heap) × (finish_all rs result h ≡ some h') × IsEnded h rs result h'
unfolding finish_all
finish_all_lem [] result h ne d w =
    (h, refl, record { jobs = λ s. refl; entries = λ s c. cc; gone = λ k g. g })
finish_all_lem (r ∷ rs) result h ne d w =
    let (h', e, ended) =
      finish_all_lem rs result (end_one h r result) ne d.1
        (AreWaiting-end_one h r result rs d.0 w.1) in
    (h', rw (finish_ref_wait h r result w.0 ne) e, IsEnded-cons h r rs result d.0 ended)
