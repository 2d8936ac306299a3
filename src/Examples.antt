-- ===== src/Examples.antt =====
-- Concrete inputs at which the theorems hold, one module for each part of the program.
pub mod World
pub mod Codes
pub mod Peers
pub mod Frames
pub mod Queue
pub mod Pairings
pub mod Messages
pub mod Sessions
pub mod Tally
pub mod Machine
pub mod Carried
pub mod Commands
pub mod Processes
pub mod Sockets
