-- ===== src/Kyouko3.antt =====
-- The Kyouko3 graphics driver, Kyouko3_GrpahicsDriver/mymod.c and mymod.h.
pub mod Register
pub mod State
pub mod Dma
pub mod Graphics
pub mod Files
pub mod Ring
pub mod Queue
pub mod Flushing
pub mod Mapping
pub mod Binding
pub mod Freeing
pub mod Unbinding
pub mod Interrupted
pub mod Bounds
pub mod Tests
