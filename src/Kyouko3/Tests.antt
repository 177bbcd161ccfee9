-- ===== src/Kyouko3/Tests.antt =====
-- Tests of the driver's model at concrete states of the card.
mod Samples
pub mod Calm
mod Ring
mod Board
mod Calls
mod Session
