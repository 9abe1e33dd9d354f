-- ===== src/Bump.antt =====
-- libs/rust/ftl_bump_allocator/src/lib.rs: an allocator that hands out a region from its end down.
pub mod Placement
pub mod Disjoint
use ftl.Base.{ℕ, ◌-◌, ltb, leb, if◌then◌else◌, Option, none, some, List, [], ◌∷◌, Exec, done, ◌>>=◌}
use ftl.Base.Word.{checked_sub}
use ftl.Align.{align_down}

pub record BumpAllocator : Type 0 where
  -- the start address of the region
  pub start : ℕ
  -- the end of what is left of the region
  pub next : ℕ

abbrev pub new : ℕ → ℕ → BumpAllocator
new start end = record { start = start; next = end }

-- What follows `align_down` in `alloc`.
place : BumpAllocator → ℕ → Option ℕ × BumpAllocator
place b addr = if ltb addr b.start then (none, b) else (some addr, record b { next = addr })

unfoldable pub alloc : BumpAllocator → ℕ → ℕ → Exec (Option ℕ × BumpAllocator)
unfolding place
alloc b size align = elim (checked_sub b.next size) [
  | none ↦ done (none, b)
  | some addr ↦ do aligned_addr ← align_down addr align; done (place b aligned_addr)
]
