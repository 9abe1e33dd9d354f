-- ===== src/Arch/Tables/Kernel.antt =====
-- The addresses from 2 ^ 47 on, which `map` of kernel/src/arch/x64/vmspace.rs does not refuse.
use ftl.Arch.Paging
