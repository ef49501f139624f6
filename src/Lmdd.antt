-- ===== src/Lmdd.antt =====
-- src/lmdd.c: the copy program, which moves blocks from one file to another and times it.
-- As on QNX: FLUSH and O_SYNC are defined, and DBG, RUSAGE, O_DIRECT, USE_BDS and sgi are not.
pub mod Args
pub mod Copy
pub mod Done
pub mod Files
pub mod Histogram
pub mod Offsets
pub mod Pattern
pub mod Settings
mod Tests
