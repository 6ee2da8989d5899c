-- ===== src/Proc/System/Ops.antt =====
-- The operations of xv6-l/proc.c are quiet: they stop no other process, and keep the queues sound.
mod Sleepers
mod Allocate
mod Bury
pub use Sleepers.*
pub use Allocate.*
pub use Bury.*
