-- ===== src/Io.antt =====
-- The `io` package: byte buffers.
pub mod ByteBuffer
