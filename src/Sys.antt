-- ===== src/Sys.antt =====
-- The C library part of the kernel: sys/string.c and sys/ctype.c.
pub mod Str
pub mod Ctype
