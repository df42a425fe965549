-- ===== src/Tests.antt =====
-- Concrete members, messages and blocks, and the theorems applied to them.
pub mod Cell
pub mod Leases
pub mod Rounds
pub mod Managers
pub mod HttpMessages
pub mod Bodies
pub mod Messages
pub mod Blocks
pub mod Logs
pub mod Queues
pub mod Configs
pub mod Rings
pub mod Trees
pub mod Headers
