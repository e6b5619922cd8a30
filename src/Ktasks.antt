-- ===== src/Ktasks.antt =====
-- The tasks that the command loop starts: gluKe/ktasks/counter.c, reverse.c and ktask_life.c. A line is
-- what read_line leaves in a buffer.
pub mod Counter
pub mod Reverse
pub mod Swaps
pub mod Reversed
pub mod LifeTask
pub mod Boards
mod Tests
