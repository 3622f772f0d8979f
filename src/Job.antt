-- ===== src/Job.antt =====
-- core/bin/job: the job engine.
pub mod Kind
pub mod Rentry
pub mod Entry
pub mod Process
pub mod Ordered
pub mod Lifecycle
pub mod Heap
pub mod Junit
pub mod Stat
pub mod Alloc
pub mod Notify
pub mod Table
pub mod Transaction
pub mod Manager
pub mod Samples
mod Tests
mod Examples
