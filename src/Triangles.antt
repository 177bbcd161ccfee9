-- ===== src/Triangles.antt =====
-- The user program that draws triangles, Kyouko3_GrpahicsDriver/main.c.
pub mod Commands
pub mod Buffers
pub mod Drawn
pub mod Contents
pub mod Program
pub mod Sizes
pub mod Session
pub mod Rounds
pub mod Fifty
pub mod Ending
pub mod Completes
mod Tests
mod RunTests
