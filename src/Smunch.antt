-- ===== src/Smunch.antt =====
-- The system calls of Smunch-SystemCalls/stoogecalls.c and Smunch-SystemCalls/smunch.c: sending a set
-- of signals to a process, the counters of received signals, and sleeping on a wait queue.
pub mod Signals
pub mod Calls
pub mod Smunching
pub mod Counters
pub mod Sleeping
mod Tests
