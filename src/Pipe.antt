-- ===== src/Pipe.antt =====
-- Pipes, api/src/file/pipe.rs: `Buffer` is `PipeRingBuffer`, `Ends` the two `Pipe` objects over it.
pub mod Buffer
pub mod Ends
