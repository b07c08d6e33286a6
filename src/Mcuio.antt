-- ===== src/Mcuio.antt =====
-- mcuio: the protocol by which a host reads and writes the registers of the functions of this
-- device (include/tasks/mcuio.h, mcuio/mcuio-function.h, mcuio/task-mcuio.c).
pub mod Packet
pub mod Range
pub mod Task
pub mod Irq
pub mod Registers
pub mod Codec
pub mod Lookup
pub mod Replies
pub mod Stale
pub mod Total
pub mod Assembly
mod Tests
