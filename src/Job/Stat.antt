-- ===== src/Job/Stat.antt =====
-- core/bin/job/stat.rs: how many jobs there are, and how many there were.
pub mod Counted
use sysmaster.Base.{
  ℕ, ◌+◌, ◌-◌, ◌%◌, Bool, true, false, not, ◌||◌, List, [], ◌∷◌, Option, none, some, length, ltb,
  assert, ◌>>=◌, ◌>>◌, if◌then◌else◌,
}
use sysmaster.Job.Kind.{
  JobKind, start, stop, reload, restart, verify, nop, JobResult, done, cancelled, time_out, failed,
  dependency, skipped, invalid, assertion, un_supported, collected, once, merged, JobStage, end,
}
use sysmaster.Job.Entry.{Job}

-- 2^64, the size of `usize`.
abbrev pub usize : ℕ
usize = 18446744073709551616

-- Did it overflow, and the value, which stays if it did.
unfoldable pub value_try_add : ℕ → ℕ → Bool × ℕ
value_try_add value add =
    if ltb (value + add) usize then (false, (value + add) % usize) else (true, value)

unfoldable pub value_try_sub : ℕ → ℕ → Bool × ℕ
value_try_sub value sub = if ltb value sub then (true, value) else (false, value - sub)

pub record JobKindNum : Type 0 where
  pub start : ℕ
  pub stop : ℕ
  pub reload : ℕ
  pub restart : ℕ
  pub verify : ℕ
  pub nop : ℕ

abbrev pub new_kind_num : JobKindNum
new_kind_num = record { start = 0; stop = 0; reload = 0; restart = 0; verify = 0; nop = 0 }

-- One job of `adds` or `dels`: `op` is `value_try_add` or `value_try_sub` on the field of its kind.
-- `none` is `unreachable!`, or the overflow that is asserted not to be.
abbrev pub change_kind : JobKind → (ℕ → Bool × ℕ) → JobKindNum → Option JobKindNum
change_kind start op n = let (o, v) = op n.start in do assert (not o); some (record n { start = v })
change_kind stop op n = let (o, v) = op n.stop in do assert (not o); some (record n { stop = v })
change_kind reload op n =
    let (o, v) = op n.reload in do assert (not o); some (record n { reload = v })
change_kind restart op n =
    let (o, v) = op n.restart in do assert (not o); some (record n { restart = v })
change_kind verify op n =
    let (o, v) = op n.verify in do assert (not o); some (record n { verify = v })
change_kind nop op n = let (o, v) = op n.nop in do assert (not o); some (record n { nop = v })
change_kind _ op n = none

unfoldable pub add_kinds : List Job → JobKindNum → Option JobKindNum
unfolding value_try_add
add_kinds [] n = some n
add_kinds (job ∷ jobs) n = do
  n' ← change_kind job.kind (λ v. value_try_add v 1) n
  add_kinds jobs n'

unfoldable pub del_kinds : List Job → JobKindNum → Option JobKindNum
unfolding value_try_sub
del_kinds [] n = some n
del_kinds (job ∷ jobs) n = do
  n' ← change_kind job.kind (λ v. value_try_sub v 1) n
  del_kinds jobs n'

-- `JobKindNum::update`
unfoldable pub update_kind_num : List Job → List Job → JobKindNum → Option JobKindNum
unfolding add_kinds del_kinds
update_kind_num adds dels n = do n' ← add_kinds adds n; del_kinds dels n'

pub record JobStageNum : Type 0 where
  pub wait : ℕ
  pub running : ℕ

abbrev pub new_stage_num : JobStageNum
new_stage_num = record { wait = 0; running = 0 }

pub record JobNum : Type 0 where
  pub kind : JobKindNum
  pub stage : JobStageNum

pub record JobResultCnt : Type 0 where
  pub done : ℕ
  pub cancelled : ℕ
  pub timeout : ℕ
  pub failed : ℕ
  pub dependency : ℕ
  pub skipped : ℕ
  pub invalid : ℕ
  pub assertion : ℕ
  pub unsupported : ℕ
  pub collected : ℕ
  pub once : ℕ
  pub merged : ℕ

abbrev pub new_result_cnt : JobResultCnt
new_result_cnt = record {
  done = 0;
  cancelled = 0;
  timeout = 0;
  failed = 0;
  dependency = 0;
  skipped = 0;
  invalid = 0;
  assertion = 0;
  unsupported = 0;
  collected = 0;
  once = 0;
  merged = 0;
}

-- The `match` of `JobResultCnt::update`: the overflow, and the counts.
abbrev pub count_result : JobResult → JobResultCnt → Bool × JobResultCnt
unfolding value_try_add
count_result done c = let (o, v) = value_try_add c.done 1 in (o, record c { done = v })
count_result cancelled c =
    let (o, v) = value_try_add c.cancelled 1 in (o, record c { cancelled = v })
count_result time_out c = let (o, v) = value_try_add c.timeout 1 in (o, record c { timeout = v })
count_result failed c = let (o, v) = value_try_add c.failed 1 in (o, record c { failed = v })
count_result dependency c =
    let (o, v) = value_try_add c.dependency 1 in (o, record c { dependency = v })
count_result skipped c = let (o, v) = value_try_add c.skipped 1 in (o, record c { skipped = v })
count_result invalid c = let (o, v) = value_try_add c.invalid 1 in (o, record c { invalid = v })
count_result assertion c =
    let (o, v) = value_try_add c.assertion 1 in (o, record c { assertion = v })
count_result un_supported c =
    let (o, v) = value_try_add c.unsupported 1 in (o, record c { unsupported = v })
count_result collected c =
    let (o, v) = value_try_add c.collected 1 in (o, record c { collected = v })
count_result once c = let (o, v) = value_try_add c.once 1 in (o, record c { once = v })
count_result merged c = let (o, v) = value_try_add c.merged 1 in (o, record c { merged = v })

-- Only a job that ended counts.
abbrev pub count_stage : JobStage → JobResultCnt → Bool × JobResultCnt
count_stage (end r) c = count_result r c
count_stage _ c = (false, c)

-- `JobResultCnt::update`, with the overflow so far.
unfoldable pub update_result_cnt : Bool → List Job → JobResultCnt → Bool × JobResultCnt
unfolding count_result
update_result_cnt overflow [] c = (overflow, c)
update_result_cnt overflow (job ∷ dels) c =
    let (o, c') = count_stage job.stage c in update_result_cnt (overflow || o) dels c'

pub record JobOpCnt : Type 0 where
  pub add : ℕ
  pub update : ℕ
  pub del : ℕ

abbrev pub new_op_cnt : JobOpCnt
new_op_cnt = record { add = 0; update = 0; del = 0 }

-- `JobOpCnt::update`
unfoldable pub update_op_cnt : List Job → List Job → List Job → JobOpCnt → Bool × JobOpCnt
unfolding value_try_add
update_op_cnt adds dels updates c =
    let (o1, a) = value_try_add c.add (length adds) in
    let (o2, d) = value_try_add c.del (length dels) in
    let (o3, u) = value_try_add c.update (length updates) in
    (o1 || o2 || o3, record { add = a; update = u; del = d })

pub record JobCnt : Type 0 where
  pub result : JobResultCnt
  pub op : JobOpCnt

-- `JobCnt::update`
unfoldable pub update_cnt : List Job → List Job → List Job → JobCnt → Bool × JobCnt
unfolding update_result_cnt update_op_cnt
update_cnt adds dels updates c =
    let (o, r) = update_result_cnt false dels c.result in
    let (o', p) = update_op_cnt adds dels updates c.op in (o || o', record { result = r; op = p })

-- `JobStatData`
pub record JobStat : Type 0 where
  pub num : JobNum
  pub cnt : JobCnt

abbrev pub new_stat : JobStat
new_stat = record {
  num = record { kind = new_kind_num; stage = new_stage_num };
  cnt = record { result = new_result_cnt; op = new_op_cnt };
}

unfoldable pub update_changes : List Job → List Job → List Job → JobStat → Option JobStat
unfolding update_kind_num update_cnt
update_changes adds dels updates s = do
  k ← update_kind_num adds dels s.num.kind
  let (overflow, c) = update_cnt adds dels updates s.cnt in
      some (record { num = record (s.num) { kind = k }; cnt = c })

abbrev pub change_to_changes : Option Job → List Job
change_to_changes none = []
change_to_changes (some j) = j ∷ []

unfoldable pub update_change : Option Job → Option Job → Option Job → JobStat → Option JobStat
unfolding update_changes
update_change add del update s =
    update_changes (change_to_changes add) (change_to_changes del) (change_to_changes update) s

unfoldable pub clear_cnt : JobStat → JobStat
clear_cnt s = record s { cnt = record { result = new_result_cnt; op = new_op_cnt } }
