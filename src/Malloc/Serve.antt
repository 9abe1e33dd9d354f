-- ===== src/Malloc/Serve.antt =====
-- The whole of `malloc`, and `free` and `add_chunk`, of libs/rust/ftl_malloc/src/lib.rs.
use ftl.Base.{
  ℕ, zero, suc, ◌+◌, ◌-◌, ◌^◌, ◌%◌, ◌≤◌, ◌<◌, ◌≡◌, ◌∙◌, ap, refl, arith, ◌⊎◌, inl, inr, ltb, leb,
  ◌==◌, if◌then◌else◌, true, Bool-cases, Option, none, some, List, [], ◌∷◌, ◌++◌, length, Exec,
  done,
}
use ftl.Align.Laws.{is_aligned-pow}
use ftl.Malloc.{
  Header, LinkedListAllocator, header_size, min_capacity, magic_free, data_ptr, can_fit, try_split,
  take_chunk, malloc_loop,
}
use ftl.Malloc.FirstFit.{Chunk, Represents, Out, IsHeap, fits, remainder, first_fit, Out-inside}
use ftl.Malloc.Loop.{entry, Kept, Taken, Behind, take_whole, take_part}

can_fit_lem :
    (c : Chunk) (h : Header) (size k : ℕ)
    → h.capacity ≡ c.capacity
    → k < 64
    → can_fit c.addr h size (2 ^ k)
      ≡ done (if fits c size (2 ^ k) then some (data_ptr c.addr) else none)
unfolding can_fit
can_fit_lem c h size k e small = elim (Bool-cases (leb size c.capacity)) [
  | inl room ↦ rw (can_fit, e, room, is_aligned-pow (data_ptr c.addr) k small)
  | inr full ↦ rw (can_fit, e, full)
]

try_split_lem :
    (c : Chunk) (h : Header) (size : ℕ)
    → h.capacity ≡ c.capacity
    → size ≤ c.capacity
    → c.addr % 16 ≡ 0
    → size % 16 ≡ 0
    → try_split c.addr h size
      ≡ done (
          if ltb (c.capacity - size) (header_size + min_capacity)
          then none
          else some (data_ptr c.addr + size, c.capacity - size - header_size))
unfolding try_split
try_split_lem c h size e room al al' =
    let enough : leb size c.capacity ≡ true = ground arith in
    elim (Bool-cases (ltb (c.capacity - size) (header_size + min_capacity))) [
      | inl small ↦ rw (try_split, e, enough, small)
      | inr large ↦
          let header : leb header_size (c.capacity - size) ≡ true = ground arith in
          let aligned : ((data_ptr c.addr + size) % 2 ^ 4 == 0) ≡ true = ground arith in
          rw (
            try_split,
            e,
            enough,
            large,
            header,
            is_aligned-pow (data_ptr c.addr + size) 4 (omega arith),
            aligned,
          )
    ]

-- First fit finds none and nothing changes, or the data of the chunk that it finds is returned.
abbrev pub Served :
    LinkedListAllocator
    → Option ℕ
    → List Chunk
    → ℕ
    → ℕ
    → Exec (Option ℕ × LinkedListAllocator)
    → Type 0
Served a prev cs size align run =
    ((first_fit size align cs ≡ none) × (run ≡ done (none, a)))
    ⊎ ((c : Chunk) × (cs' : List Chunk) × (a' : LinkedListAllocator) × (first_fit size align cs
          ≡ some (c, cs'))
        × (run ≡ done (some (data_ptr c.addr), a'))
        × Taken a prev cs size c cs' a')

-- A chunk that is passed by stays in the list.
module _ (a a' : LinkedListAllocator) (c d : Chunk) (cs cs' : List Chunk) (size : ℕ)
    (listed : Represents a.heap (some c.addr) (c ∷ cs))
    (t : Taken a (some c.addr) cs size d cs' a') where
  Kept-entry :
      (prev : Option ℕ)
      → Behind prev (c ∷ cs)
      → entry a prev ≡ some c.addr
      → (entry a' prev ≡ some c.addr) × Kept a a' prev
  Kept-entry none behind linked = (t.kept.0 ∙ linked, tt)
  Kept-entry (some q) behind linked =
      let out = behind q refl in
      let ne = λ (e : some c.addr ≡ some q).
        let same : c.addr ≡ q = cc in
        let no : ⊥ = elim out.0 [ inl h ↦ omega arith | inr h ↦ omega arith ] in no in
      let same = t.frame q out.1 ne in
      (
        ap (λ (h : Header). h.next) same ∙ linked,
        (t.kept.0, ap (λ (h : Header). h.capacity) same, ap (λ (h : Header). h.magic) same),
      )

  passed :
      (prev : Option ℕ)
      → Behind prev (c ∷ cs)
      → entry a prev ≡ some c.addr
      → Taken a prev (c ∷ cs) size d (c ∷ cs') a'
  passed prev behind linked =
      let (entry_kept, kept) = Kept-entry prev behind linked in
      record {
        listed = (entry_kept, t.kept.1 ∙ listed.1, t.kept.2 ∙ listed.2, t.listed);
        kept = kept;
        frame = λ x out ne. t.frame x out.1 (λ e.
            let same : c.addr ≡ x = cc in
            absurd (elim out.0 [ inl h ↦ omega arith | inr h ↦ omega arith ]));
        block = t.block;
      }

pub malloc_loop-first_fit :
    (cs : List Chunk) (rounds : ℕ) (a : LinkedListAllocator) (prev next : Option ℕ) (size k : ℕ)
    → length cs < rounds
    → Represents a.heap next cs
    → IsHeap cs
    → Behind prev cs
    → entry a prev ≡ next
    → size % 16 ≡ 0
    → k < 64
    → Served a prev cs size (2 ^ k) (malloc_loop rounds a prev next size (2 ^ k))
unfolding malloc_loop first_fit
malloc_loop-first_fit [] zero a prev next size k enough listed heap_ok behind linked al small =
    absurd (omega arith)
malloc_loop-first_fit [] (suc rounds) a prev next size k enough listed heap_ok behind linked al
      small =
    inl (refl, rw (listed, malloc_loop) refl)
malloc_loop-first_fit (c ∷ cs) zero a prev next size k enough listed heap_ok behind linked al
      small =
    absurd (omega arith)
malloc_loop-first_fit (c ∷ cs) (suc rounds) a prev next size k enough listed heap_ok behind linked
      al small =
    let h = a.heap c.addr in
    let free : (h.magic == magic_free) ≡ true = ground (arith, listed.2) in
    let here : Represents a.heap (some c.addr) (c ∷ cs) = (refl, listed.1, listed.2, listed.3) in
    let linked' : entry a prev ≡ some c.addr = linked ∙ listed.0 in
    elim (Bool-cases (fits c size (2 ^ k))) [
      | inl fit ↦
          let room : size ≤ c.capacity = ground arith in
          elim (Bool-cases (ltb (c.capacity - size) (header_size + min_capacity))) [
            | inl tight ↦ inr (
              c,
              remainder c size ++ cs,
              take_chunk a prev c.addr size none,
              rw fit refl,
              rw
                  (
                    listed.0,
                    malloc_loop,
                    free,
                    can_fit_lem c h size k listed.1 small,
                    fit,
                    try_split_lem c h size listed.1 room heap_ok.0.0 al,
                    tight,
                  )
                  refl,
              take_whole a prev c cs size here heap_ok behind linked' room tight,
            )
            | inr large ↦ inr (
              c,
              remainder c size ++ cs,
              take_chunk a prev c.addr size
                  (some (data_ptr c.addr + size, c.capacity - size - header_size)),
              rw fit refl,
              rw
                  (
                    listed.0,
                    malloc_loop,
                    free,
                    can_fit_lem c h size k listed.1 small,
                    fit,
                    try_split_lem c h size listed.1 room heap_ok.0.0 al,
                    large,
                  )
                  refl,
              take_part a prev c cs size here heap_ok behind linked' room large,
            )
          ]
      | inr bad ↦
          let behind' = λ (q : ℕ) (e : some c.addr ≡ some q).
            let same : c.addr ≡ q = cc in
            let out : Out q cs = Out-inside q c cs (omega arith) (omega arith) heap_ok.1.0 in out in
          let step : malloc_loop (suc rounds) a prev next size (2 ^ k)
              ≡ malloc_loop rounds a (some c.addr) h.next size (2 ^ k) =
            rw (listed.0, malloc_loop, free, can_fit_lem c h size k listed.1 small, bad) in
          elim (malloc_loop-first_fit cs rounds a (some c.addr) h.next size k (omega arith) listed.3
            (heap_ok.0.1, heap_ok.1.1) behind' refl al small) [
              | inl (nothing, run) ↦ inl (rw (bad, nothing) refl, step ∙ run)
              | inr (d, cs', a', found, run, t) ↦ inr (
                d,
                c ∷ cs',
                a',
                rw (bad, found) refl,
                step ∙ run,
                passed a a' c d cs cs' size here t prev behind linked',
              )
            ]
    ]
