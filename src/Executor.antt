-- ===== src/Executor.antt =====
-- CommandExecutor of gateway/libs/ward: what a command does to the vehicle, and the queue that answers
-- every command.
pub mod Vehicle
pub mod Dispatch
pub mod Queue
pub mod Gate
pub mod Answers
mod Tests
