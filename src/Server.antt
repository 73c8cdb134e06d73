-- ===== src/Server.antt =====
-- debug_server/src/server.rs and server_types.rs: the debug server. Messages to Loop hold its code;
-- Quiet, Ending, Stopping, Pausing and Frames are about the loops over the channel and the frames that
-- are listed.
pub mod Stacks
pub mod Messages
pub mod Session
pub mod World
pub mod Inspect
pub mod Members
pub mod Variables
pub mod Lines
pub mod Breakpoints
pub mod Eval
pub mod Handle
pub mod Frames
pub mod Loop
pub mod Pausing
pub mod Quiet
pub mod Ending
pub mod Answers
pub mod Configuring
pub mod Stopping
pub mod Tests
mod EvalTests
