-- ===== src/Cemuhook.antt =====
-- The cemuhook (DSU) server: inc/cemuhook and src/cemuhook.
pub mod Crc
pub mod Protocol
pub mod Answers
pub mod Clients
pub mod Server
pub mod Listener
