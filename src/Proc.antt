-- ===== src/Proc.antt =====
-- The process table of xv6-l/proc.c and its multilevel feedback queue.
pub mod Table
pub mod Queue
pub mod Sched
pub mod Life
pub mod System
mod Tests
