-- ===== src/Memory/Global/Grow.antt =====
-- The kernel's heap grows where it must: `alloc` of kernel/src/memory.rs over first fit and the page allocator.
use ftl.Base.{
  ℕ, zero, suc, ◌+◌, ◌-◌, ◌^◌, ◌%◌, ◌≤◌, ◌<◌, ◌≡◌, ◌≢◌, ◌∙◌, ap, sym, subst, refl, arith, ◌⊎◌, inl,
  inr, ltb, leb, ◌==◌, ==_iff, true, false, Bool-cases, none, some, List, [], ◌∷◌, All, All-mono,
  length, Exec, done, panic,
}
use ftl.Align.Laws.{is_aligned-pow}
use ftl.Arch.Direct.{kernel_base, paddr2vaddr, paddr2vaddr-add}
use ftl.Malloc.{
  Header, LinkedListAllocator, header_size, magic_free, data_ptr, set_header, add_chunk,
}
use ftl.Malloc.FirstFit.{
  Chunk, end_of, Represents, Out, Apart, IsHeap, fits, first_fit, Represents-cong,
}
use ftl.Malloc.Loop.{set_header_self, set_header_ne}
use ftl.Malloc.Blocks.{block, rounded, IsAllocated, Carved, malloc_lem}
use ftl.Memory.Visit.Exact.{In}
use ftl.Memory.Page.{PageAllocator, Ram, dirty, prepare, alloc_from}
use ftl.Memory.Page.Frames.{Left, Small, frame, alloc_from-Outcome}
use ftl.Memory.Page.Runs.{Request, alloc-whole}
use ftl.Memory.Global.{GlobalAllocator, malloc_chunk_size, alloc, alloc_again}

-- The free list is that of the chunks; the pages that are left are in the direct map and in no chunk.
pub record IsGlobal (g : GlobalAllocator) (cs : List Chunk) : Type 0 where
  pub listed : Represents g.inner.heap g.inner.head cs
  pub heap : IsHeap cs
  pub small : Small g.pool.regions
  pub direct : (x : ℕ) → Left x g.pool.regions → x < 2 ^ 47
  pub apart : (x : ℕ) → Left x g.pool.regions → Out (x + kernel_base) cs

-- `add_chunk` of a page-aligned chunk of the direct map that is apart from the others.
add_chunk_lem :
    (a : LinkedListAllocator) (cs : List Chunk) (ptr : ℕ)
    → Represents a.heap a.head cs
    → IsHeap cs
    → ptr % 16 ≡ 0
    → 0 < ptr
    → All (Apart (record { addr = ptr; capacity = malloc_chunk_size - header_size })) cs
    → (a' : LinkedListAllocator) × (add_chunk a ptr malloc_chunk_size ≡ done a')
      × Represents a'.heap a'.head
          (record { addr = ptr; capacity = malloc_chunk_size - header_size } ∷ cs)
      × IsHeap (record { addr = ptr; capacity = malloc_chunk_size - header_size } ∷ cs)
unfolding add_chunk
add_chunk_lem a cs ptr listed heap aligned positive apart =
    let h : Header = record {
      next = a.head;
      capacity = malloc_chunk_size - header_size;
      magic = magic_free;
    } in
    let al : (ptr % 2 ^ 4 == 0) ≡ true = ground arith in
    let not_null : (ptr == 0) ≡ false = ground arith in
    let self = set_header_self a.heap ptr h in
    let others =
      All-mono cs
        (λ d p.
          set_header_ne a.heap ptr d.addr h
            (elim p [ inl x ↦ λ e. omega arith | inr x ↦ λ e. omega arith ]))
        apart in
    (
      record { head = some ptr; heap = set_header a.heap ptr h },
      rw (add_chunk, is_aligned-pow ptr 4 (omega arith), al, not_null) refl,
      (
        refl,
        ap (λ (t : Header). t.capacity) self,
        ap (λ (t : Header). t.magic) self,
        subst (λ (t : Header). Represents (set_header a.heap ptr h) t.next cs) (sym self)
            (Represents-cong cs a.heap (set_header a.heap ptr h) a.head others listed),
      ),
      ((aligned, heap.0), (apart, heap.1)),
    )

-- The new chunk meets every alignment up to 16.
mod_sixteen : (v k : ℕ) → v % 16 ≡ 0 → k ≤ 4 → v % 2 ^ k ≡ 0
mod_sixteen v zero h small = omega arith
mod_sixteen v (suc zero) h small = omega arith
mod_sixteen v (suc (suc zero)) h small = omega arith
mod_sixteen v (suc (suc (suc zero))) h small = omega arith
mod_sixteen v (suc (suc (suc (suc zero)))) h small = omega arith
mod_sixteen v (suc (suc (suc (suc (suc k))))) h small = absurd (omega arith)

-- A chunk that shares no byte with another is apart from it.
disjoint_bytes :
    (ptr n : ℕ) (c : Chunk)
    → ((x : ℕ) → ptr ≤ x → x < ptr + header_size + n → (x < c.addr) ⊎ (end_of c ≤ x))
    → Apart (record { addr = ptr; capacity = n }) c
disjoint_bytes ptr n c free = elim (Bool-cases (ltb c.addr ptr)) [
  | inl before ↦ elim (free ptr (omega arith) (omega arith)) [
    | inl h ↦ absurd (ground arith)
    | inr h ↦ inr h
  ]
  | inr after ↦ elim (Bool-cases (ltb c.addr (ptr + header_size + n))) [
    | inl within ↦ elim (free c.addr (ground arith) (ground arith)) [
      | inl h ↦ absurd (omega arith)
      | inr h ↦ absurd (omega arith)
    ]
    | inr past ↦ inl (ground arith)
  ]
]

disjoint_all :
    (ptr n : ℕ) (cs : List Chunk)
    → ((x : ℕ) → ptr ≤ x → x < ptr + header_size + n → Out x cs)
    → All (Apart (record { addr = ptr; capacity = n })) cs
disjoint_all ptr n [] free = tt
disjoint_all ptr n (c ∷ cs) free = (
  disjoint_bytes ptr n c (λ x lo hi. (free x lo hi).0),
  disjoint_all ptr n cs (λ x lo hi. (free x lo hi).1),
)

first_fit-head :
    (size align : ℕ) (c : Chunk) (cs : List Chunk)
    → fits c size align ≡ true
    → first_fit size align (c ∷ cs) ≢ none
unfolding first_fit
first_fit-head size align c cs e = rw e (λ p. cc)

abbrev chunk_request : Request
chunk_request = record { len = malloc_chunk_size; page_type = dirty }

-- What an allocation gives.
abbrev pub Gives : ℕ → ℕ → Exec (ℕ × GlobalAllocator) → Type 0
Gives size k run =
    (c : Chunk) × (cs' : List Chunk) × (g' : GlobalAllocator) × (run ≡ done (data_ptr c.addr, g'))
    × Represents g'.inner.heap g'.inner.head cs'
    × IsAllocated g'.inner.heap (block c (rounded size))
    × Carved (rounded size) (2 ^ k) c cs'

module _ (g : GlobalAllocator) (cs : List Chunk) (rounds size k : ℕ)
    (enough : length cs + 1 < rounds) (v : IsGlobal g cs) (positive : 0 < size)
    (limit : size ≤ malloc_chunk_size - header_size) (small : k ≤ 4) where
  -- The second try succeeds.
  grown_serves :
      (a : ℕ) (inner : LinkedListAllocator) (pool : PageAllocator) (ram : Ram)
      → a % 16 ≡ 0
      → let new : Chunk = record { addr = a; capacity = malloc_chunk_size - header_size } in
        Represents inner.heap inner.head (new ∷ cs)
        → IsHeap (new ∷ cs)
        → Gives size k
            (alloc_again rounds (record { inner = inner; pool = pool; ram = ram }) size (2 ^ k))
  unfolding alloc_again
  grown_serves a inner pool ram aligned listed heap =
      let new : Chunk = record { addr = a; capacity = malloc_chunk_size - header_size } in
      let met : ((data_ptr a) % 2 ^ k == 0) ≡ true =
        (==_iff (data_ptr a % 2 ^ k) 0).1 (mod_sixteen (data_ptr a) k (omega arith) small) in
      let room : leb (rounded size) (malloc_chunk_size - header_size) ≡ true = ground arith in
      let fit : fits new (rounded size) (2 ^ k) ≡ true = rw (room, met) in
      elim (malloc_lem inner (new ∷ cs) rounds size k (omega arith) listed heap positive
        (omega arith) (omega arith)) [
          | inl (nothing, _) ↦ absurd (first_fit-head (rounded size) (2 ^ k) new cs fit nothing)
          | inr (c, cs', inner', found, run, listed', allocated, carved, kept) ↦ (
            c,
            cs',
            record { inner = inner'; pool = pool; ram = ram },
            rw (alloc_again, run) refl,
            listed',
            allocated,
            carved,
          )
        ]

  -- A frame of the page allocator becomes a chunk, apart from the others.
  frame_serves :
      (a : ℕ) (pool : PageAllocator) (ram : Ram)
      → a % 2 ^ 12 ≡ 0
      → ((x : ℕ) → In x (frame a malloc_chunk_size) → Left x g.pool.regions)
      → (inner : LinkedListAllocator) × (add_chunk g.inner (paddr2vaddr a) malloc_chunk_size
          ≡ done inner)
        × Gives size k
            (alloc_again rounds (record { inner = inner; pool = pool; ram = ram }) size (2 ^ k))
  frame_serves a pool ram aligned free =
      let at_a = paddr2vaddr-add a (v.direct a (free a (omega arith))) in
      let apart = disjoint_all (a + kernel_base) (malloc_chunk_size - header_size) cs λ x lo hi.
        let back : x - kernel_base + kernel_base ≡ x = omega arith in
        let out : Out x cs =
          subst (λ (y : ℕ). Out y cs) back
            (v.apart (x - kernel_base) (free (x - kernel_base) (omega arith))) in
        out in
      let (inner, added, listed, heap) =
        add_chunk_lem g.inner cs (a + kernel_base) v.listed v.heap (omega arith) (omega arith)
          apart in
      (
        inner,
        ap (λ (p : ℕ). add_chunk g.inner p malloc_chunk_size) at_a ∙ added,
        grown_serves (a + kernel_base) inner pool ram (omega arith) listed heap,
      )

  -- In a heap of fewer chunks than rounds less one, an allocation of at most 128 KiB less a header, aligned to 16 bytes at most,
  -- panics only if no chunk fits and the page allocator has no 128 KiB left. Else it returns the data of a chunk that fits,
  -- marked as allocated and apart from all chunks that are left on the free list.
  pub global_alloc_lem :
      ((first_fit (rounded size) (2 ^ k) cs ≡ none)
        × (alloc_from g.pool.regions malloc_chunk_size ≡ done (none, g.pool.regions))
        × (alloc rounds g size (2 ^ k) ≡ panic))
      ⊎ Gives size k (alloc rounds g size (2 ^ k))
  unfolding alloc prepare
  global_alloc_lem =
      elim (malloc_lem g.inner cs rounds size k (omega arith) v.listed v.heap positive (omega arith)
        (omega arith)) [
          | inr (c, cs', inner', found, run, listed', allocated, carved, kept) ↦ inr (
            c,
            cs',
            record g { inner = inner' },
            rw (alloc, run) refl,
            listed',
            allocated,
            carved,
          )
          | inl (nothing, run) ↦
              elim (alloc_from-Outcome malloc_chunk_size g.pool.regions v.small) [
                | inr e ↦ inl (
                  nothing,
                  e,
                  rw (alloc, run, alloc-whole g.pool g.ram chunk_request (omega arith), e) refl,
                )
                | inl (a, regions', e, carved) ↦
                    let (inner, added, gives) =
                      frame_serves a (record { regions = regions' }) g.ram (carved 0).aligned
                        (λ x. (carved x).taken) in
                    let (c, cs', g', second, listed', allocated, carved') = gives in
                    inr (
                      c,
                      cs',
                      g',
                      rw
                          (
                            alloc,
                            run,
                            alloc-whole g.pool g.ram chunk_request (omega arith),
                            e,
                            added,
                          )
                          second,
                      listed',
                      allocated,
                      carved',
                    )
              ]
        ]
