-- ===== src/Lx.antt =====
-- servers/lx: the server that runs Linux programs.
pub mod Stack
pub mod Syscall
