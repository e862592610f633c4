-- ===== src/Hiddev.antt =====
-- The readers of the controller's frames: inc/hiddev and src/hiddev.
pub mod MissedTicks
pub mod HidApiDev
pub mod ReadDataApi
pub mod ProcessData
pub mod Reader
pub mod ReadDataFile
pub mod HidDevFile
pub mod ServeFrame
pub mod Delivery
pub mod Finder
