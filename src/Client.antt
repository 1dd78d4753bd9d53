-- ===== src/Client.antt =====
-- The game client, client/.
pub mod Disk
pub mod Store
pub mod Record
pub mod Peers
pub mod Game
pub mod Wire
