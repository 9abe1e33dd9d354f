-- ===== src/Malloc/Blocks.antt =====
-- The blocks that the allocator of libs/rust/ftl_malloc/src/lib.rs hands out lie apart from what it keeps.
use ftl.Base.{
  ℕ, ◌+◌, ◌-◌, ◌*◌, ◌^◌, ◌/◌, ◌%◌, ◌≤◌, ◌<◌, ◌≡◌, ◌≢◌, ◌∙◌, ap, sym, subst, refl, arith, ◌⊎◌, inl,
  inr, ltb, ◌==◌, true, false, Bool-cases, Option-cases, Option, none, some, List, [], ◌∷◌, ◌++◌,
  All, All-mono, length, done, lt→ltb,
}
use ftl.Align.Laws.{align_up-pow, is_power_of_two-pow}
use ftl.Malloc.{
  Header, Heap, LinkedListAllocator, header_size, min_capacity, magic_free, magic_allocated,
  data_ptr, set_header, malloc_loop, malloc, free,
}
use ftl.Malloc.FirstFit.{
  Chunk, Represents, Out, Apart, IsHeap, fits, remainder, first_fit, taken, Represents-cong,
}
use native.Mathlib.Nat.{one-le-pow}
use ftl.Malloc.Loop.{set_header_self, set_header_ne}
use ftl.Malloc.Serve.{malloc_loop-first_fit}

-- What is taken of a chunk: the header and the data.
abbrev pub block : Chunk → ℕ → Chunk
block c size = record { addr = c.addr; capacity = taken c size }

-- The chunk that first fit finds can serve, its block is apart from all that is left, and what is left is a heap; what
-- holds of all chunks and of what is left of them holds of the result.
pub record Carved (size align : ℕ) (c : Chunk) (cs' : List Chunk) : Type 0 where
  pub fit : fits c size align ≡ true
  pub heap : IsHeap cs'
  pub aligned : c.addr % 16 ≡ 0
  pub apart : All (Apart (block c size)) cs'

module _ (size align : ℕ) (whole : size % 16 ≡ 0) where
  -- A property of chunks that a remainder keeps.
  abbrev Keeps : (Chunk → Type 0) → Type 0
  Keeps P = (c : Chunk) → P c → fits c size align ≡ true → All P (remainder c size)

  All-append : (P : Chunk → Type 0) (xs ys : List Chunk) → All P xs → All P ys → All P (xs ++ ys)
  All-append P [] ys p q = q
  All-append P (x ∷ xs) ys p q = (p.0, All-append P xs ys p.1 q)

  first_fit-All :
      (P : Chunk → Type 0) (cs : List Chunk) (c : Chunk) (cs' : List Chunk)
      → Keeps P
      → All P cs
      → first_fit size align cs ≡ some (c, cs')
      → P c × All P cs'
  unfolding first_fit
  first_fit-All P [] c cs' keeps all e = cc
  first_fit-All P (d ∷ ds) c cs' keeps all e = elim (Bool-cases (fits d size align)) [
    | inl fit ↦
        let e' : ◌≡◌ {A = Option (Chunk × List Chunk)} (some (d, remainder d size ++ ds))
            (some (c, cs')) =
          rw fit at e in
        let same : d ≡ c = cc in
        let rest : remainder d size ++ ds ≡ cs' = cc in
        (
          subst P same all.0,
          subst (All P) rest (All-append P (remainder d size) ds (keeps d all.0 fit) all.1),
        )
    | inr bad ↦ elim (Option-cases (first_fit size align ds)) [
      | inl nothing ↦ absurd (cc (rw (bad, nothing) at e))
      | inr ((c', rest'), found) ↦
          let e' : ◌≡◌ {A = Option (Chunk × List Chunk)} (some (c', d ∷ rest')) (some (c, cs')) =
            rw (bad, found) at e in
          let same : c' ≡ c = cc in
          let rest : d ∷ rest' ≡ cs' = cc in
          let (one, others) = first_fit-All P ds c' rest' keeps all.1 found in
          (subst P same one, subst (All P) rest (all.0, others))
    ]
  ]

  keeps_Apart : (d : Chunk) → Keeps (Apart d)
  keeps_Apart d c apart fit =
      elim (Bool-cases (ltb (c.capacity - size) (header_size + min_capacity))) [
        | inl small ↦ rw small tt
        | inr large ↦
            rw large (elim apart [ inl h ↦ inl (omega arith) | inr h ↦ inr (ground arith) ], tt)
      ]

  keeps_aligned : Keeps (λ c. c.addr % 16 ≡ 0)
  keeps_aligned c al fit =
      elim (Bool-cases (ltb (c.capacity - size) (header_size + min_capacity))) [
        | inl small ↦ rw small tt
        | inr large ↦ rw large (omega arith, tt)
      ]

  -- The block of a chunk and what is left of it.
  block-remainder :
      (c : Chunk) → fits c size align ≡ true → All (Apart (block c size)) (remainder c size)
  block-remainder c fit = elim (Bool-cases (ltb (c.capacity - size) (header_size + min_capacity))) [
    | inl small ↦ rw small tt
    | inr large ↦ rw large (inl (omega arith), tt)
  ]

  block_within : (c d : Chunk) → fits c size align ≡ true → Apart c d → Apart (block c size) d
  block_within c d fit apart =
      elim (Bool-cases (ltb (c.capacity - size) (header_size + min_capacity))) [
        | inl small ↦ rw small apart
        | inr large ↦ rw large (elim apart [ inl h ↦ inl (ground arith) | inr h ↦ inr h ])
      ]

  Ordered-remainder :
      (c : Chunk) (cs : List Chunk)
      → fits c size align ≡ true
      → IsHeap (c ∷ cs)
      → IsHeap (remainder c size ++ cs)
  Ordered-remainder c cs fit heap =
      elim (Bool-cases (ltb (c.capacity - size) (header_size + min_capacity))) [
        | inl small ↦ rw small (heap.0.1, heap.1.1)
        | inr large ↦ rw large (
          (omega (arith, heap.0.0), heap.0.1),
          (
            All-mono cs
                (λ d apart. elim apart [ inl h ↦ inl (ground arith) | inr h ↦ inr (omega arith) ])
                heap.1.0,
            heap.1.1,
          ),
        )
      ]

  first_fit-Carved :
      (cs : List Chunk) (c : Chunk) (cs' : List Chunk)
      → IsHeap cs
      → first_fit size align cs ≡ some (c, cs')
      → Carved size align c cs'
  unfolding first_fit
  first_fit-Carved [] c cs' heap e = cc
  first_fit-Carved (d ∷ ds) c cs' heap e = elim (Bool-cases (fits d size align)) [
    | inl fit ↦
        let e' : ◌≡◌ {A = Option (Chunk × List Chunk)} (some (d, remainder d size ++ ds))
            (some (c, cs')) =
          rw fit at e in
        let same : d ≡ c = cc in
        let rest : remainder d size ++ ds ≡ cs' = cc in
        subst (λ t. Carved size align t cs') same
          (subst (Carved size align d) rest (record {
            fit = fit;
            heap = Ordered-remainder d ds fit heap;
            aligned = heap.0.0;
            apart =
                All-append (Apart (block d size)) (remainder d size) ds (block-remainder d fit)
                  (All-mono ds (λ t apart. block_within d t fit apart) heap.1.0);
          }))
    | inr bad ↦ elim (Option-cases (first_fit size align ds)) [
      | inl nothing ↦ absurd (cc (rw (bad, nothing) at e))
      | inr ((c', rest'), found) ↦
          let e' : ◌≡◌ {A = Option (Chunk × List Chunk)} (some (c', d ∷ rest')) (some (c, cs')) =
            rw (bad, found) at e in
          let same : c' ≡ c = cc in
          let rest : d ∷ rest' ≡ cs' = cc in
          let t = first_fit-Carved ds c' rest' (heap.0.1, heap.1.1) found in
          let (apart, others) =
            first_fit-All (Apart d) ds c' rest' (keeps_Apart d) heap.1.0 found in
          let flipped : Apart c' d = elim apart [ inl h ↦ inr h | inr h ↦ inl h ] in
          subst (λ t. Carved size align t cs') same
            (subst (Carved size align c') rest (record {
              fit = t.fit;
              heap = ((heap.0.0, t.heap.0), (others, t.heap.1));
              aligned = t.aligned;
              apart = (block_within c' d t.fit flipped, t.apart);
            }))
    ]
  ]

-- The size that `malloc` looks for.
abbrev pub rounded : ℕ → ℕ
rounded size = (size + 16 - 1) / 16 * 16

-- A block that was handed out: its header.
abbrev pub IsAllocated : Heap → Chunk → Type 0
IsAllocated heap b =
    heap b.addr ≡ record { next = none; capacity = b.capacity; magic = magic_allocated }

-- On a free list of fewer chunks than rounds, `malloc` of at most 2 ^ 31 - 1 bytes does not panic, and is first fit for the
-- size rounded up to 16: it returns none and changes nothing if no chunk fits; else the data of the first chunk that
-- fits, marked as allocated, apart from all chunks that stay on the list, with every header outside the chunks as it was.
pub malloc_lem :
    (a : LinkedListAllocator) (cs : List Chunk) (rounds size k : ℕ)
    → length cs < rounds
    → Represents a.heap a.head cs
    → IsHeap cs
    → 0 < size
    → size ≤ 2 ^ 31 - 1
    → k < 64
    → ((first_fit (rounded size) (2 ^ k) cs ≡ none)
        × (malloc rounds a size (2 ^ k) ≡ done (none, a)))
      ⊎ ((c : Chunk) × (cs' : List Chunk) × (a' : LinkedListAllocator) × (first_fit
              (rounded size)
              (2 ^ k)
              cs
            ≡ some (c, cs'))
          × (malloc rounds a size (2 ^ k) ≡ done (some (data_ptr c.addr), a'))
          × Represents a'.heap a'.head cs'
          × IsAllocated a'.heap (block c (rounded size))
          × Carved (rounded size) (2 ^ k) c cs'
          × ((x : ℕ) → Out x cs → a'.heap x ≡ a.heap x))
unfolding malloc
malloc_lem a cs rounds size k enough listed heap positive limit small =
    let n = rounded size in
    let ok_align : ltb 0 (2 ^ k) ≡ true = lt→ltb 0 (2 ^ k) (one-le-pow k 2 (omega arith)) in
    let ok_size : ltb 0 size ≡ true = lt→ltb 0 size positive in
    let ok_limit : ltb ((2 ^ 32 - 1) / 2) size ≡ false = ground arith in
    let word : n % 2 ^ 32 ≡ n = omega arith in
    let start : malloc rounds a size (2 ^ k) ≡ malloc_loop rounds a none a.head n (2 ^ k) = rw (
      malloc,
      is_power_of_two-pow k small,
      ok_align,
      ok_size,
      ok_limit,
      align_up-pow size 4 (omega arith) (omega arith),
      word,
    ) in
    let behind = λ (q : ℕ) (e : none ≡ some q). let out : Out q cs = cc in out in
    elim (malloc_loop-first_fit cs rounds a none a.head n k enough listed heap behind refl
      (omega arith) small) [
        | inl (nothing, run) ↦ inl (nothing, start ∙ run)
        | inr (c, cs', a', found, run, t) ↦ inr (
          c,
          cs',
          a',
          found,
          start ∙ run,
          t.listed,
          t.block,
          first_fit-Carved n (2 ^ k) (omega arith) cs c cs' heap found,
          λ x out. t.frame x out (λ e. cc),
        )
      ]

-- `free` of an allocated block that is apart from the chunks puts it at the head of the list.
pub free_lem :
    (a : LinkedListAllocator) (cs : List Chunk) (b : Chunk)
    → Represents a.heap a.head cs
    → IsHeap cs
    → IsAllocated a.heap b
    → b.addr % 16 ≡ 0
    → All (Apart b) cs
    → (a' : LinkedListAllocator) × (free a (data_ptr b.addr) ≡ done a')
      × Represents a'.heap a'.head (b ∷ cs)
      × IsHeap (b ∷ cs)
      × ((x : ℕ) → x ≢ b.addr → a'.heap x ≡ a.heap x)
unfolding free
free_lem a cs b listed heap allocated aligned apart =
    let h : Header = record {
      next = a.head;
      capacity = (a.heap b.addr).capacity;
      magic = magic_free;
    } in
    let place : data_ptr b.addr - header_size ≡ b.addr = omega arith in
    let not_null : (data_ptr b.addr == 0) ≡ false = ground arith in
    let marked : ((a.heap b.addr).magic == magic_allocated) ≡ true = rw allocated in
    let self = set_header_self a.heap b.addr h in
    let others =
      All-mono cs
        (λ d p.
          set_header_ne a.heap b.addr d.addr h
            (elim p [ inl x ↦ λ e. omega arith | inr x ↦ λ e. omega arith ]))
        apart in
    (
      record { head = some b.addr; heap = set_header a.heap b.addr h },
      rw (free, not_null, place, marked) refl,
      (
        refl,
        ap (λ (t : Header). t.capacity) self ∙ ap (λ (t : Header). t.capacity) allocated,
        ap (λ (t : Header). t.magic) self,
        subst (λ (t : Header). Represents (set_header a.heap b.addr h) t.next cs) (sym self)
            (Represents-cong cs a.heap (set_header a.heap b.addr h) a.head others listed),
      ),
      ((aligned, heap.0), (apart, heap.1)),
      λ x ne. set_header_ne a.heap b.addr x h ne,
    )
