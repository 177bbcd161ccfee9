-- ===== src/Lab.antt =====
-- The lab version of the driver, mylab/5lab/mymod.c and mymod.h.
pub mod Driver
pub mod Calls
pub mod Overrun
pub mod Filled
pub mod Progress
pub mod Second
pub mod Third
pub mod Fourth
pub mod Versions
pub mod Pixels
pub mod Client
pub mod Program
pub mod FourthClient
pub mod FourthProgram
pub mod Drawn
mod Tests
