-- ===== src/Mbuf.antt =====
-- usual/mbuf.h and usual/mbuf.c: a buffer with a read cursor and a write cursor, over memory that is
-- fixed or grows. Sums and differences of cursors wrap as `unsigned` does.
pub mod State
pub mod Read
pub mod Write
pub mod View
pub mod Reading
pub mod Growing
pub mod Writing
pub mod Cutting
pub mod Moving
mod Tests
