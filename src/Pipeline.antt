-- ===== src/Pipeline.antt =====
-- What the threads of the program hand to one another: inc/pipeline and src/pipeline.
pub mod SignalOut
pub mod PipeOut
pub mod Serve
pub mod Thread
