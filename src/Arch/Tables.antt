-- ===== src/Arch/Tables.antt =====
-- The page tables of kernel/src/arch/x64/vmspace.rs: making an address space and mapping a page. Memory is the 8-byte word
-- at each virtual address that is a multiple of 8; a reference to a table is the virtual address of its first entry.
-- The lock of an address space is held over `map`.
pub mod Walk
pub mod Grow
pub mod Ensure
pub mod Leaf
pub mod Reach
pub mod Map
pub mod New
pub mod Kernel
use ftl.Base.{
  ℕ, ◌+◌, ◌*◌, ltb, leb, ◌==◌, if◌then◌else◌, not, ◌||◌, Bool, true, false, Option, none, some,
  Exec, done, panic, ◌>>=◌, ◌>>◌, assert, Result, ok, err, bit_or,
}
use ftl.Align.{is_aligned}
use ftl.Api.ErrorCode.{
  ErrorCode, out_of_memory, not_allowed, already_exists, invalid_arg, unsupported,
}
use ftl.Arch.Direct.{min_page_size, kernel_base, paddr2vaddr, vaddr2paddr}
use ftl.Arch.Paging
use ftl.Arch.Paging.{
  pte_v, pte_w, pte_u, is_present, is_huge, pml4_index, pdpt_index, pdt_index, pt_index,
}
use ftl.Memory.Page
use ftl.Memory.Page.{PageAllocator, Ram, zeroed}

abbrev pub entries_per_table : ℕ
entries_per_table = 512

-- The memory of the tables, and PAGE_ALLOCATOR.
pub record Pages : Type 0 where
  pub words : Ram
  pub pool : PageAllocator

-- The address of an entry of a table.
abbrev pub entry_at : ℕ → ℕ → ℕ
entry_at table index = table + 8 * index

unfoldable pub store_word : Ram → ℕ → ℕ → Ram
store_word words at value x = if x == at then value else words x

-- What fails with a code has changed the pages until there.
abbrev pub Op : Type 0 → Type 0
Op A = Pages → Exec (Result A ErrorCode × Pages)

infixl 5 ◌>>?◌
abbrev pub ◌>>?◌ :
    {A B : Type 0}
    → Exec (Result A ErrorCode × Pages)
    → (A → Op B)
    → Exec (Result B ErrorCode × Pages)
done (ok a, s) >>? f = f a s
done (err e, s) >>? f = done (err e, s)
panic >>? f = panic

unfoldable pub alloc_table : Op ℕ
alloc_table s = do
  (paddr, pool, words) ← Page.alloc s.pool s.words min_page_size zeroed
  done (
    elim paddr [ none ↦ err out_of_memory | some p ↦ ok p ],
    record { words = words; pool = pool },
  )

-- The branch of `ensure_next_table` for an entry that is not present.
unfoldable pub add_table : ℕ → Op ℕ
add_table at s = alloc_table s >>? λ paddr s'. do
  entry ← Paging.new paddr (bit_or (bit_or pte_v pte_w) pte_u)
  done (ok (paddr2vaddr paddr), record s' { words = store_word s'.words at entry })

unfoldable pub ensure_next_table : ℕ → ℕ → Op ℕ
ensure_next_table table index s = do
  assert (ltb index entries_per_table)
  let entry = s.words (entry_at table index)
  (if not (is_present entry)
      then add_table (entry_at table index) s
      else if is_huge entry
      then done (err unsupported, s)
      else done (ok (paddr2vaddr (Paging.paddr entry)), s))

-- The last level.
unfoldable pub set_entry : ℕ → ℕ → ℕ → ℕ → Op (Unit {0})
set_entry pt index paddr attrs s = do
  assert (ltb index entries_per_table)
  (if is_present (s.words (entry_at pt index)) then done (err already_exists, s) else (do
    entry ← Paging.new paddr (bit_or (bit_or pte_v pte_u) attrs)
    done (ok tt, record s { words = store_word s.words (entry_at pt index) entry })))

-- `map` behind its checks.
unfoldable pub walk_and_set : ℕ → ℕ → ℕ → ℕ → Op (Unit {0})
walk_and_set pml4 uaddr paddr attrs s = ensure_next_table pml4 (pml4_index uaddr) s >>? λ pdpt s1.
    ensure_next_table pdpt (pdpt_index uaddr) s1 >>? λ pdt s2.
    ensure_next_table pdt (pdt_index uaddr) s2 >>? λ pt s3.
    set_entry pt (pt_index uaddr) paddr attrs s3

-- `VmSpace::map`; `pml4` is the field of that name.
unfoldable pub map : ℕ → ℕ → ℕ → ℕ → ℕ → Op (Unit {0})
map pml4 uaddr paddr len attrs s = do
  a ← is_aligned uaddr min_page_size
  b ← is_aligned paddr min_page_size
  c ← is_aligned len min_page_size
  (if not a || not b || not c
      then done (err invalid_arg, s)
      else if leb kernel_base uaddr
      then done (err not_allowed, s)
      else walk_and_set pml4 uaddr paddr attrs s)

pub record VmSpace : Type 0 where
  pub pml4 : ℕ
  pub cr3 : ℕ

-- `VmSpace::new`; `boot_pdpt` is the address of BOOT_PDPT.
unfoldable pub new : ℕ → Op VmSpace
new boot_pdpt s = alloc_table s >>? λ pml4_paddr s'. do
  entry ← Paging.new (vaddr2paddr boot_pdpt) pte_v
  done (
    ok (record { pml4 = paddr2vaddr pml4_paddr; cr3 = pml4_paddr }),
    record s' { words = store_word s'.words (entry_at (paddr2vaddr pml4_paddr) 256) entry },
  )
