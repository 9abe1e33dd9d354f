-- ===== src/Tests/Chunks.antt =====
-- The heap with two free chunks and an allocated block between them.
use ftl.Base.{
  ℕ, ◌^◌, ◌==◌, if◌then◌else◌, ◌≡◌, ◌≢◌, ◌⊎◌, inl, inr, refl, arith, none, some, List, [], ◌∷◌,
  done, panic,
}
use ftl.Malloc.{Heap, LinkedListAllocator, magic_free, magic_allocated, data_ptr, malloc, free}
use ftl.Malloc.FirstFit.{Chunk, Represents, Out, IsHeap, first_fit}
use ftl.Memory.Page.{alloc_from}
use ftl.Memory.Global
use ftl.Memory.Global.{GlobalAllocator, malloc_chunk_size}
use ftl.Memory.Global.Grow.{IsGlobal, Gives, global_alloc_lem}
use ftl.Malloc.Blocks.{block, rounded, IsAllocated, Carved, malloc_lem, free_lem}

abbrev headers : Heap
headers x =
    if x == 0x1000
    then record { next = some 0x2000; capacity = 64; magic = magic_free }
    else if x == 0x2000
    then record { next = none; capacity = 256; magic = magic_free }
    else record { next = none; capacity = 32; magic = magic_allocated }

abbrev allocator : LinkedListAllocator
allocator = record { head = some 0x1000; heap = headers }

abbrev chunks : List Chunk
chunks = record { addr = 0x1000; capacity = 64 } ∷ record { addr = 0x2000; capacity = 256 } ∷ []

abbrev in_use : Chunk
in_use = record { addr = 0x1800; capacity = 32 }

listed : Represents headers (some 0x1000) chunks
listed = (refl, refl, refl, (refl, refl, refl, refl))

chunks-IsHeap : IsHeap chunks
chunks-IsHeap = ((refl, (refl, tt)), ((inl (omega arith), tt), (tt, tt)))

malloc_lem_example :
    ((first_fit (rounded 100) (2 ^ 4) chunks ≡ none)
      × (malloc 3 allocator 100 (2 ^ 4) ≡ done (none, allocator)))
    ⊎ ((c : Chunk) × (cs' : List Chunk) × (a' : LinkedListAllocator) × (first_fit
            (rounded 100)
            (2 ^ 4)
            chunks
          ≡ some (c, cs'))
        × (malloc 3 allocator 100 (2 ^ 4) ≡ done (some (data_ptr c.addr), a'))
        × Represents a'.heap a'.head cs'
        × IsAllocated a'.heap (block c (rounded 100))
        × Carved (rounded 100) (2 ^ 4) c cs'
        × ((x : ℕ) → Out x chunks → a'.heap x ≡ headers x))
malloc_lem_example =
    malloc_lem allocator chunks 3 100 4 (omega arith) listed chunks-IsHeap (omega arith)
      (omega arith) (omega arith)

free_lem_example :
    (a' : LinkedListAllocator) × (free allocator 0x1810 ≡ done a')
    × Represents a'.heap a'.head (in_use ∷ chunks)
    × IsHeap (in_use ∷ chunks)
    × ((x : ℕ) → x ≢ 0x1800 → a'.heap x ≡ headers x)
free_lem_example =
    free_lem allocator chunks in_use listed chunks-IsHeap refl refl
      (inr (omega arith), (inl (omega arith), tt))

abbrev heap_of_kernel : GlobalAllocator
heap_of_kernel = record {
  inner = allocator;
  pool = record { regions = record { start = 0x100000; next = 0x200000 } ∷ [] };
  ram = λ x. 0;
}

heap_of_kernel-IsGlobal : IsGlobal heap_of_kernel chunks
heap_of_kernel-IsGlobal = record {
  listed = listed;
  heap = chunks-IsHeap;
  small = omega arith;
  direct = λ x. elim [ inl h ↦ omega arith | inr h ↦ absurd h ];
  apart = λ x. elim [ inl h ↦ (inr (omega arith), (inr (omega arith), tt)) | inr h ↦ absurd h ];
}

global_alloc_lem_example :
    ((first_fit (rounded 5000) (2 ^ 3) chunks ≡ none)
      × (alloc_from heap_of_kernel.pool.regions malloc_chunk_size
          ≡ done (none, heap_of_kernel.pool.regions))
      × (Global.alloc 4 heap_of_kernel 5000 (2 ^ 3) ≡ panic))
    ⊎ Gives 5000 3 (Global.alloc 4 heap_of_kernel 5000 (2 ^ 3))
global_alloc_lem_example =
    global_alloc_lem heap_of_kernel chunks 4 5000 3 (omega arith) heap_of_kernel-IsGlobal
      (omega arith) (omega arith) (omega arith)
