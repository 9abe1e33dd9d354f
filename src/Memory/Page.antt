-- ===== src/Memory/Page.antt =====
-- `PageAllocator` of kernel/src/memory.rs. Its lock is held over each call, so a call is one step.
-- The regions are an `ArrayVec<BumpAllocator, 8>`, taken at its contract (ArrayVec/Bounded.antt).
pub mod Frames
pub mod Runs
use ftl.Base.{
  ℕ, ◌+◌, ltb, leb, ◌==◌, if◌then◌else◌, ◌&&◌, Option, none, some, List, [], ◌∷◌, Exec, done, ◌>>=◌,
  ◌>>◌, assert,
}
use ftl.ArrayVec.Bounded
use ftl.ArrayVec.Bounded.{answer}
use ftl.Bump
use ftl.Bump.{BumpAllocator}
use ftl.Align.{is_aligned}
use ftl.Arch.Direct.{min_page_size, paddr2vaddr}

pub data PageType : Type 0 where
  -- the caller initialises the memory
  dirty : PageType
  zeroed : PageType

pub record PageAllocator : Type 0 where
  pub regions : List BumpAllocator

-- Memory as the kernel sees it: the byte at each virtual address.
abbrev pub Ram : Type 0
Ram = ℕ → ℕ

-- `write_bytes(ptr, 0, len)`
abbrev pub write_zeroes : Ram → ℕ → ℕ → Ram
write_zeroes ram at len x = if leb at x && ltb x (at + len) then 0 else ram x

-- A ninth region is left out.
unfoldable pub add_region : PageAllocator → ℕ → ℕ → PageAllocator
unfolding answer
add_region p start end = record p {
  regions = (answer 8 p.regions (Bounded.push (Bump.new start end))).1;
}

-- The loop over the regions.
unfoldable pub alloc_from : List BumpAllocator → ℕ → Exec (Option ℕ × List BumpAllocator)
alloc_from [] len = done (none, [])
alloc_from (region ∷ rest) len = do
  (addr, region') ← Bump.alloc region len min_page_size
  elim addr [
    | some a ↦ done (some a, region' ∷ rest)
    | none ↦ do (a, rest') ← alloc_from rest len; done (a, region' ∷ rest')
  ]

-- What is done to the pages that were found.
unfoldable pub prepare : PageType → Ram → ℕ → Option ℕ → Ram
prepare page_type ram len none = ram
prepare dirty ram len (some paddr) = ram
prepare zeroed ram len (some paddr) = write_zeroes ram (paddr2vaddr paddr) len

unfoldable pub alloc : PageAllocator → Ram → ℕ → PageType → Exec (Option ℕ × PageAllocator × Ram)
unfolding alloc_from prepare
alloc p ram len page_type = do
  assert (ltb 0 len)
  aligned ← is_aligned len min_page_size
  assert aligned
  (paddr, regions) ← alloc_from p.regions len
  done (paddr, record p { regions = regions }, prepare page_type ram len paddr)
