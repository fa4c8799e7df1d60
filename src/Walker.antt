-- ===== src/Walker.antt =====
-- internal/collect/walker: the one traversal of the filesystem that answers the questions of every
-- module.
pub mod Mounts
pub mod Questions
pub mod State
pub mod Traverse
pub mod Run
pub mod Steps
pub mod Ends
pub mod Books
pub mod Scan
pub mod Entries
pub mod Rounds
pub mod Reach
pub mod Sound
pub mod Whole
pub mod Start
pub mod Report
pub mod Members
pub mod Covered
pub mod Closed
pub mod Complete
pub mod Asks
pub mod Collector
mod Tests
