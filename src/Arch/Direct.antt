-- ===== src/Arch/Direct.antt =====
-- The direct map of kernel/src/arch/x64/vmspace.rs: a physical address is reached at its place in
-- the upper half of the address space.
use ftl.Base.{ℕ, ◌+◌, ◌-◌, ◌^◌, ◌<◌, ◌≡◌, arith, bit_and, bit_or}
use ftl.Base.Bits.{bit_or_high, bit_and_mask}
use ftl.Base.Word.{complement}

abbrev pub min_page_size : ℕ
min_page_size = 4096

abbrev pub kernel_base : ℕ
kernel_base = 0xffff_8000_0000_0000

unfoldable pub paddr2vaddr : ℕ → ℕ
paddr2vaddr paddr = bit_or paddr kernel_base

unfoldable pub vaddr2paddr : ℕ → ℕ
vaddr2paddr vaddr = bit_and vaddr (complement kernel_base)

-- Below 2 ^ 47 the direct map adds the base.
pub paddr2vaddr-add : (p : ℕ) → p < 2 ^ 47 → paddr2vaddr p ≡ p + kernel_base
unfolding paddr2vaddr
paddr2vaddr-add p h = omega (arith, bit_or_high 47 p (2 ^ 17 - 1) h)

-- For a physical address below 2 ^ 47 `vaddr2paddr` takes back `paddr2vaddr`.
vaddr2paddr-paddr2vaddr : (p : ℕ) → p < 2 ^ 47 → vaddr2paddr (paddr2vaddr p) ≡ p
unfolding vaddr2paddr
vaddr2paddr-paddr2vaddr p h = omega (arith, paddr2vaddr-add p h, bit_and_mask 47 (paddr2vaddr p))
