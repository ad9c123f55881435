-- ===== src/Examples.antt =====
-- Concrete runs: data, and each theorem that has hypotheses applied where they hold.
pub mod Data
pub mod Stacking
pub mod Clients
pub mod Events
pub mod Focusing
pub mod Leaving
pub mod Tagging
pub mod Shared
pub mod Frames
pub mod Sockets
