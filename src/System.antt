-- ===== src/System.antt =====
-- The parts of the program put together: what src/main.cpp builds.
pub mod Frames
pub mod Sessions
pub mod Main
