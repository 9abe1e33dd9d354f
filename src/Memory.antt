-- ===== src/Memory.antt =====
-- kernel/src/memory.rs: the physical memory of the kernel. `Visit` and `Sort` are the helpers of the
-- start-up, `Page` is the page allocator, and `Init` fills it from the boot information.
pub mod Visit
pub mod Sort
pub mod Page
pub mod Init
pub mod Global
