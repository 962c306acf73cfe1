-- ===== src/Io.antt =====
-- The input and output operations. Each has a context with the bytes that it has accumulated; the
-- interpreter hands bytes in by `handle_read` and takes bytes out by `get_write_buffer`.
pub mod Context
pub mod ReadStatic
pub mod ReadUntil
pub mod ReadInt32
pub mod ReadAscii
pub mod TerminateList
pub mod Lookahead
pub mod Write
