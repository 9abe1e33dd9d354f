-- ===== src/Memory/Global.antt =====
-- `GlobalAllocator` of kernel/src/memory.rs: the kernel's heap, which grows by pages. Its lock is held over each call.
pub mod Grow
use ftl.Base.{ℕ, ◌*◌, Option, none, some, Exec, done, panic, ◌>>=◌}
use ftl.Arch.Direct.{paddr2vaddr}
use ftl.Malloc
use ftl.Malloc.{LinkedListAllocator, add_chunk}
use ftl.Memory.Page
use ftl.Memory.Page.{PageAllocator, Ram, dirty}

abbrev pub malloc_chunk_size : ℕ
malloc_chunk_size = 128 * 1024

-- The heap, with PAGE_ALLOCATOR and the memory that it prepares.
pub record GlobalAllocator : Type 0 where
  pub inner : LinkedListAllocator
  pub pool : PageAllocator
  pub ram : Ram

unfoldable pub add_region : GlobalAllocator → ℕ → ℕ → Exec GlobalAllocator
add_region g ptr size = do inner ← add_chunk g.inner ptr size; done (record g { inner = inner })

-- The second try, in a chunk that was added.
unfoldable pub alloc_again : ℕ → GlobalAllocator → ℕ → ℕ → Exec (ℕ × GlobalAllocator)
alloc_again rounds g size align = do
  (ptr, inner) ← Malloc.malloc rounds g.inner size align
  elim ptr [ none ↦ panic | some p ↦ done (p, record g { inner = inner }) ]

-- `alloc`; `rounds` bounds the rounds of the search in the free list.
unfoldable pub alloc : ℕ → GlobalAllocator → ℕ → ℕ → Exec (ℕ × GlobalAllocator)
alloc rounds g size align = do
  (ptr, inner) ← Malloc.malloc rounds g.inner size align
  elim ptr [
    | some p ↦ done (p, record g { inner = inner })
    | none ↦ do
      (paddr, pool, ram) ← Page.alloc g.pool g.ram malloc_chunk_size dirty
      elim paddr [
        | none ↦ panic
        | some frame ↦ do
          inner' ← add_chunk inner (paddr2vaddr frame) malloc_chunk_size
          alloc_again rounds (record { inner = inner'; pool = pool; ram = ram }) size align
      ]
  ]

unfoldable pub dealloc : GlobalAllocator → ℕ → Exec GlobalAllocator
dealloc g ptr = do inner ← Malloc.free g.inner ptr; done (record g { inner = inner })
