-- ===== src/Lib.antt =====
-- sysMaster, an init and service manager in Rust. This library models its job engine, core/bin/job,
-- and what the engine reads of the units, core/bin/unit and core/lib/unit, and the tables of the
-- reliability database, core/lib/rel.
--
-- A job asks for a kind of action (start, stop, reload, restart, verify, nop) at one unit. A transaction
-- collects a job and all that it pulls in on a stage, which is a table of jobs of its own; they are committed to the jobs of each unit, which wait there by kind (`suspends`),
-- are put in an order (`sq`), and become the one job that runs (`trigger`). A change of the unit's state
-- ends the job that runs. The database of the engine mirrors waiting and running jobs, so that a restarted
-- daemon finds them again.
--
-- The files and the code that they model:
--   Base: shared names. Base/Tests has Boolean tests, the interface `Eq` and `assert`, Base/Hash a
--     `HashMap` as an association list, Base/Lists, Base/Sets and Base/Int lists, sets and signed numbers.
--   Unit/State: core/lib/unit/state.rs. Unit/Relation and its children: core/lib/unit/deps.rs and
--     core/bin/unit/base/relation.rs, relation_atom.rs; Unit/Relation/Tables has their laws.
--   Unit/Deps: core/bin/unit/datastore/deps.rs, `UnitDepData` as `DepData`; `insert`, `remove` are
--     `insert_dep`, `remove_dep`. Unit/Deps/Lookup, Mirror, Changed and Removed have its laws.
--   Unit/StartLimit: core/bin/unit/entry/ratelimit.rs.
--   Job/Kind, Job/Rentry: core/bin/job/rentry.rs, and the enumerations of core/bin/job/entry.rs.
--   Job/Entry, Job/Process: core/bin/job/entry.rs; `Job` is the record with its `RefCell` fields, `run`
--     is `run_job`, `finish` is `finish_job`. Job/Lifecycle has a job under any sequence of calls,
--     in which a job that waits is not finished with `Done`; Lifecycle/Ended is about `finish`.
--     Job/Ordered has the order of two jobs and the end of a job by its unit's state.
--   Job/Heap: the `Rc<Job>` references as numbers into a heap, with the database; Job/Heap/Finish has
--     the loops that finish a list of jobs.
--   Job/Junit: core/bin/job/junit.rs, `JobUnitData` as `JobUnit`; its operations stand in
--     Job/Junit/Suspends, Reshuffle and Trigger, the lemmas in the other children.
--   Job/Table: core/bin/job/table.rs, `JobUnitTable` and, in Job/Table/Jobs, `JobTable`. Ready has the
--     queue of the units that are ready, Units the lookups and tests, Entries the operations that keep
--     the queue in step, Runnable the trigger of one unit. Where both structures have a method of the
--     same name, that of `JobUnitTable` ends in _uv or _table, that of `JobTable` in _job or _jobs.
--     Reached has a table under any sequence of its operations; Queue, Taken, Popped, Marked,
--     Touched, Triggering, Settled, Synced, Consistent, Finishing and Tried have the lemmas, Dropped is
--     about the removal of a unit. As the queue holds names of units, the model agrees with the code as
--     long as no unit is removed that stands on the stack `readys`.
--   Job/Transaction: core/bin/job/transaction.rs; Pulls is what a job pulls in, as a specification,
--     Recorded, Grown, Expanded, Checked and Closure are about the expansion, Verified and Isolated
--     about the steps after it. Fallback has what is taken back after a failure.
--   Job/Manager: core/bin/job/manager.rs, `exec` and `rentry_trigger_merge` of `JobManagerData`.
--   Job/Alloc: core/bin/job/alloc.rs. Job/Stat: core/bin/job/stat.rs. Job/Notify:
--     core/bin/job/notify.rs.
--   Rel: core/lib/rel/base.rs, `ReDb` with the `heed` database as the parameter `Database`; Rel/Synced
--     has a table under any sequence of calls.
--   Job/Samples, Job/Tests, Job/Examples and the other modules named Tests: concrete values, and runs on them.
--
-- A panic (`assert!`, `unwrap` on nothing, `unreachable!`) is `none`. A method that changes its object
-- returns it changed, with the heap or the database. What a unit answers (its state, its abilities,
-- the result of its actions) is the record `Units`, a parameter. A `HashMap` is the list of its entries
-- in the order of iteration, which `insert` extends at the end; a `BTreeMap` with no values of its own is
-- the list of its keys. Fuel is used by `alloc_id`, where one more than the number of ids is enough, and
-- by `job_trans_expand`, where one more than the number of jobs that the request leads to is; the fuel of
-- `trans_fallback_body` counts the failures that lead to one another, and has no bound here. What a
-- transaction asks of the units (dependencies, load states, configuration) is the record `TransDb`.
--
-- Not modelled: the manager's loop over the ready units and
-- its answer to a change of a unit's state, the restart of the tables from the database,
-- timers, the event loop, the stations of the database and the tie of `JobRe` to its tables, the
-- units' own state machines (service, socket, mount, target), and the programs around the daemon.
pub mod Base
pub mod Rel
pub mod Unit
pub mod Job
