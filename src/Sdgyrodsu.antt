-- ===== src/Sdgyrodsu.antt =====
-- The frames of the controller and the adapter that turns them into motion data: inc/sdgyrodsu and
-- src/sdgyrodsu.
pub mod Frame
pub mod Floats
pub mod Motion
pub mod Adapter
pub mod Presenter
pub mod Samples
