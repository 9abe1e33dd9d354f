-- ===== src/Arch.antt =====
-- kernel/src/arch/x64: what the kernel takes from the x64 port. `Direct` is the direct map,
-- `Paging` the page table entries.
pub mod Direct
pub mod Paging
pub mod Tables
pub mod Registers
pub mod Mp
pub mod Boot
pub mod Pvh
pub mod Multiboot
