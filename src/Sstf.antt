-- ===== src/Sstf.antt =====
-- The greedy I/O scheduler, SSTF/greedy-iosched.c: two queues of requests, below and above the disk
-- head, linked through the kernel's `struct list_head`.
pub mod Links
pub mod Scheduler
pub mod Registration
pub mod Segment
pub mod Insert
pub mod Queues
pub mod Schedule
pub mod Refine
pub mod Dispatch
pub mod Spacing
pub mod Nearest
pub mod Placed
pub mod Adding
pub mod Neighbours
pub mod Remove
pub mod Perms
pub mod Run
pub mod Elevator
mod Tests
