-- ===== src/Job/Stat/Counted.antt =====
-- core/bin/job/stat.rs: what the numbers count.
use sysmaster.Base.{
  ℕ, ◌+◌, ◌-◌, ◌≤◌, ◌<◌, Bool, true, false, List, [], ◌∷◌, some, ◌≡◌, refl, arith, ◌==◌, All,
  nat_eq,
}
use sysmaster.Job.Kind.{
  JobKind, kind_eq, start, stop, reload, restart, verify, nop, try_reload, try_restart,
  reload_or_start, job_is_basic_op, JobResult, done, cancelled, time_out, failed, dependency,
  skipped, invalid, assertion, un_supported, collected, once, merged, JobStage, init, wait, running,
  end,
}
use sysmaster.Job.Entry.{Job}
use sysmaster.Job.Stat.{
  usize, value_try_add, value_try_sub, JobKindNum, change_kind, add_kinds, del_kinds,
  update_kind_num, JobResultCnt, count_result, count_stage, update_result_cnt,
}

-- The number that is kept of a kind.
abbrev pub num_of : JobKind → JobKindNum → ℕ
num_of start n = n.start
num_of stop n = n.stop
num_of reload n = n.reload
num_of restart n = n.restart
num_of verify n = n.verify
num_of nop n = n.nop
num_of _ n = 0

abbrev pub count_if : Bool → ℕ
count_if true = 1
count_if false = 0

abbrev pub count_kind : JobKind → List Job → ℕ
count_kind k [] = 0
count_kind k (j ∷ js) = count_if (j.kind == k) + count_kind k js

abbrev pub AreBasic : List Job → Type 0
AreBasic = All (λ j. job_is_basic_op j.kind ≡ true)

one_added :
    (k : JobKind) (n : JobKindNum)
    → job_is_basic_op k ≡ true
    → num_of k n + 1 < usize
    → (n' : JobKindNum) × (change_kind k (λ v. value_try_add v 1) n ≡ some n')
      × ((j : JobKind) → num_of j n' ≡ num_of j n + count_if (k == j))
unfolding value_try_add job_is_basic_op
one_added start n b lt = (record n { start = n.start + 1 }, ground arith, λ j. ground arith)
one_added stop n b lt = (record n { stop = n.stop + 1 }, ground arith, λ j. ground arith)
one_added reload n b lt = (record n { reload = n.reload + 1 }, ground arith, λ j. ground arith)
one_added restart n b lt = (record n { restart = n.restart + 1 }, ground arith, λ j. ground arith)
one_added verify n b lt = (record n { verify = n.verify + 1 }, ground arith, λ j. ground arith)
one_added nop n b lt = (record n { nop = n.nop + 1 }, ground arith, λ j. ground arith)
one_added try_reload n b lt = cc
one_added try_restart n b lt = cc
one_added reload_or_start n b lt = cc

one_deleted :
    (k : JobKind) (n : JobKindNum)
    → job_is_basic_op k ≡ true
    → 1 ≤ num_of k n
    → (n' : JobKindNum) × (change_kind k (λ v. value_try_sub v 1) n ≡ some n')
      × ((j : JobKind) → num_of j n' + count_if (k == j) ≡ num_of j n)
unfolding value_try_sub job_is_basic_op
one_deleted start n b lt = (record n { start = n.start - 1 }, ground arith, λ j. ground arith)
one_deleted stop n b lt = (record n { stop = n.stop - 1 }, ground arith, λ j. ground arith)
one_deleted reload n b lt = (record n { reload = n.reload - 1 }, ground arith, λ j. ground arith)
one_deleted restart n b lt = (record n { restart = n.restart - 1 }, ground arith, λ j. ground arith)
one_deleted verify n b lt = (record n { verify = n.verify - 1 }, ground arith, λ j. ground arith)
one_deleted nop n b lt = (record n { nop = n.nop - 1 }, ground arith, λ j. ground arith)
one_deleted try_reload n b lt = cc
one_deleted try_restart n b lt = cc
one_deleted reload_or_start n b lt = cc

add_kinds_lem :
    (adds : List Job) (n : JobKindNum)
    → AreBasic adds
    → ((k : JobKind) → num_of k n + count_kind k adds < usize)
    → (n' : JobKindNum) × (add_kinds adds n ≡ some n')
      × ((k : JobKind) → num_of k n' ≡ num_of k n + count_kind k adds)
unfolding add_kinds
add_kinds_lem [] n b lt = (n, refl, λ k. omega arith)
add_kinds_lem (a ∷ adds) n b lt =
    let (n1, e1, c1) =
      one_added a.kind n b.0 (ground (arith, lt a.kind, kind_eq.beq_iff a.kind a.kind)) in
    let (n2, e2, c2) = add_kinds_lem adds n1 b.1 (λ k. omega (arith, lt k, c1 k)) in
    (n2, rw e1 e2, λ k. omega (arith, c1 k, c2 k))

del_kinds_lem :
    (dels : List Job) (n : JobKindNum)
    → AreBasic dels
    → ((k : JobKind) → count_kind k dels ≤ num_of k n)
    → (n' : JobKindNum) × (del_kinds dels n ≡ some n')
      × ((k : JobKind) → num_of k n' + count_kind k dels ≡ num_of k n)
unfolding del_kinds
del_kinds_lem [] n b lt = (n, refl, λ k. omega arith)
del_kinds_lem (a ∷ dels) n b lt =
    let (n1, e1, c1) =
      one_deleted a.kind n b.0 (ground (arith, lt a.kind, kind_eq.beq_iff a.kind a.kind)) in
    let (n2, e2, c2) = del_kinds_lem dels n1 b.1 (λ k. omega (arith, lt k, c1 k)) in
    (n2, rw e1 e2, λ k. omega (arith, c1 k, c2 k))

-- If the jobs added and deleted are of basic kinds, the number of each kind fits in a `usize` with
-- those added, and no more of a kind are deleted than there are then, the update does not panic,
-- and the number of each kind grows by those added and falls by those deleted.
pub update_kind_num_lem :
    (adds dels : List Job) (n : JobKindNum)
    → AreBasic adds
    → AreBasic dels
    → ((k : JobKind) → num_of k n + count_kind k adds < usize)
    → ((k : JobKind) → count_kind k dels ≤ num_of k n + count_kind k adds)
    → (n' : JobKindNum) × (update_kind_num adds dels n ≡ some n')
      × ((k : JobKind) → num_of k n' + count_kind k dels ≡ num_of k n + count_kind k adds)
unfolding update_kind_num
update_kind_num_lem adds dels n a d lt le =
    let (n1, e1, c1) = add_kinds_lem adds n a lt in
    let (n2, e2, c2) = del_kinds_lem dels n1 d (λ k. omega (arith, le k, c1 k)) in
    (n2, rw e1 e2, λ k. omega (arith, c1 k, c2 k))

-- The count that is kept of a result.
abbrev pub cnt_of : JobResult → JobResultCnt → ℕ
cnt_of done c = c.done
cnt_of cancelled c = c.cancelled
cnt_of time_out c = c.timeout
cnt_of failed c = c.failed
cnt_of dependency c = c.dependency
cnt_of skipped c = c.skipped
cnt_of invalid c = c.invalid
cnt_of assertion c = c.assertion
cnt_of un_supported c = c.unsupported
cnt_of collected c = c.collected
cnt_of once c = c.once
cnt_of merged c = c.merged

abbrev result_code : JobResult → ℕ
result_code done = 0
result_code cancelled = 1
result_code time_out = 2
result_code failed = 3
result_code dependency = 4
result_code skipped = 5
result_code invalid = 6
result_code assertion = 7
result_code un_supported = 8
result_code collected = 9
result_code once = 10
result_code merged = 11

abbrev is_end : JobResult → JobStage → Bool
is_end r (end s) = result_code s == result_code r
is_end r _ = false

-- How many of the jobs ended with this result.
abbrev pub count_ended : JobResult → List Job → ℕ
count_ended r [] = 0
count_ended r (j ∷ js) = count_if (is_end r j.stage) + count_ended r js

one_counted :
    (r : JobResult) (c : JobResultCnt)
    → cnt_of r c + 1 < usize
    → (c' : JobResultCnt) × (count_result r c ≡ (false, c'))
      × ((s : JobResult) → cnt_of s c' ≡ cnt_of s c + count_if (is_end s (end r)))
unfolding count_result value_try_add
one_counted done c lt = (record c { done = c.done + 1 }, ground arith, λ s. ground arith)
one_counted cancelled c lt =
    (record c { cancelled = c.cancelled + 1 }, ground arith, λ s. ground arith)
one_counted time_out c lt = (record c { timeout = c.timeout + 1 }, ground arith, λ s. ground arith)
one_counted failed c lt = (record c { failed = c.failed + 1 }, ground arith, λ s. ground arith)
one_counted dependency c lt =
    (record c { dependency = c.dependency + 1 }, ground arith, λ s. ground arith)
one_counted skipped c lt = (record c { skipped = c.skipped + 1 }, ground arith, λ s. ground arith)
one_counted invalid c lt = (record c { invalid = c.invalid + 1 }, ground arith, λ s. ground arith)
one_counted assertion c lt =
    (record c { assertion = c.assertion + 1 }, ground arith, λ s. ground arith)
one_counted un_supported c lt =
    (record c { unsupported = c.unsupported + 1 }, ground arith, λ s. ground arith)
one_counted collected c lt =
    (record c { collected = c.collected + 1 }, ground arith, λ s. ground arith)
one_counted once c lt = (record c { once = c.once + 1 }, ground arith, λ s. ground arith)
one_counted merged c lt = (record c { merged = c.merged + 1 }, ground arith, λ s. ground arith)

stage_counted :
    (g : JobStage) (c : JobResultCnt)
    → ((r : JobResult) → cnt_of r c + count_if (is_end r g) < usize)
    → (c' : JobResultCnt) × (count_stage g c ≡ (false, c'))
      × ((s : JobResult) → cnt_of s c' ≡ cnt_of s c + count_if (is_end s g))
stage_counted init c lt = (c, refl, λ s. omega arith)
stage_counted wait c lt = (c, refl, λ s. omega arith)
stage_counted running c lt = (c, refl, λ s. omega arith)
stage_counted (end r) c lt =
    one_counted r c (ground (arith, lt r, nat_eq.beq_iff (result_code r) (result_code r)))

-- If the counts of the results fit in a `usize` with those of the jobs deleted, none overflows, and
-- each grows by the number of the jobs deleted that ended with its result.
pub update_result_cnt_lem :
    (dels : List Job) (c : JobResultCnt)
    → ((r : JobResult) → cnt_of r c + count_ended r dels < usize)
    → (c' : JobResultCnt) × (update_result_cnt false dels c ≡ (false, c'))
      × ((r : JobResult) → cnt_of r c' ≡ cnt_of r c + count_ended r dels)
unfolding update_result_cnt
update_result_cnt_lem [] c lt = (c, refl, λ r. omega arith)
update_result_cnt_lem (j ∷ dels) c lt =
    let (c1, e1, n1) = stage_counted j.stage c (λ r. omega (arith, lt r)) in
    let (c2, e2, n2) = update_result_cnt_lem dels c1 (λ r. omega (arith, lt r, n1 r)) in
    (c2, rw e1 e2, λ r. omega (arith, n1 r, n2 r))
