-- ===== src/Malloc/Loop.antt =====
-- `malloc` of libs/rust/ftl_malloc/src/lib.rs is first fit on the free list.
use ftl.Base.{
  ℕ, ◌+◌, ◌-◌, ◌≤◌, ◌<◌, ◌≡◌, ◌≢◌, ◌∙◌, ap, sym, subst, refl, arith, ◌⊎◌, inl, inr, ltb, ◌==◌, true,
  false, Option, none, some, List, [], ◌∷◌, ◌++◌, All, All-mono,
}
use ftl.Malloc.{
  Header, Heap, LinkedListAllocator, header_size, min_capacity, magic_free, magic_allocated,
  data_ptr, set_header, relink, take_chunk,
}
use ftl.Malloc.FirstFit.{
  Chunk, end_of, Represents, Out, IsHeap, remainder, taken, Represents-cong, Out-ne,
}

pub set_header_self : (heap : Heap) (at : ℕ) (h : Header) → set_header heap at h at ≡ h
set_header_self heap at h = let e : (at == at) ≡ true = ground arith in rw e

pub set_header_ne : (heap : Heap) (at x : ℕ) (h : Header) → x ≢ at → set_header heap at h x ≡ heap x
set_header_ne heap at x h ne = let e : (x == at) ≡ false = ground arith in rw e

-- Where the list stands: the head, or the pointer of the chunk before.
abbrev pub entry : LinkedListAllocator → Option ℕ → Option ℕ
entry a none = a.head
entry a (some q) = (a.heap q).next

-- Relinking changes one pointer.
relink-Represents :
    (a : LinkedListAllocator) (prev next : Option ℕ) (cs : List Chunk)
    → ((q : ℕ) → prev ≡ some q → All (λ c. c.addr ≢ q) cs)
    → Represents a.heap next cs
    → Represents (relink a prev next).heap (entry (relink a prev next) prev) cs
relink-Represents a none next cs apart r = r
relink-Represents a (some q) next cs apart r =
    let h : Header = record {
      next = next;
      capacity = (a.heap q).capacity;
      magic = (a.heap q).magic;
    } in
    subst (λ (n : Option ℕ). Represents (set_header a.heap q h) n cs)
      (ap (λ (t : Header). t.next) (sym (set_header_self a.heap q h)))
      (Represents-cong cs a.heap (set_header a.heap q h) next
        (All-mono cs (λ c ne. set_header_ne a.heap q c.addr h ne) (apart q refl)) r)

pub relink_other :
    (a : LinkedListAllocator) (prev next : Option ℕ) (x : ℕ)
    → prev ≢ some x
    → (relink a prev next).heap x ≡ a.heap x
relink_other a none next x ne = refl
relink_other a (some q) next x ne =
    set_header_ne a.heap q x
      (record { next = next; capacity = (a.heap q).capacity; magic = (a.heap q).magic })
      (λ e. ne (ap some (sym e)))

-- What is kept of the chunk before, and of the head.
abbrev pub Kept : LinkedListAllocator → LinkedListAllocator → Option ℕ → Type 0
Kept a a' none = Unit
Kept a a' (some q) =
    (a'.head ≡ a.head)
    × ((a'.heap q).capacity ≡ (a.heap q).capacity)
    × ((a'.heap q).magic ≡ (a.heap q).magic)

-- The state after the chunk `c` is taken from the list `cs` behind `prev`, with `cs'` left.
pub record Taken (a : LinkedListAllocator) (prev : Option ℕ) (cs : List Chunk) (size : ℕ)
    (c : Chunk) (cs' : List Chunk) (a' : LinkedListAllocator) : Type 0 where
  pub listed : Represents a'.heap (entry a' prev) cs'
  pub kept : Kept a a' prev
  pub frame : (x : ℕ) → Out x cs → prev ≢ some x → a'.heap x ≡ a.heap x
  pub block :
      a'.heap c.addr ≡ record { next = none; capacity = taken c size; magic = magic_allocated }

relink-Kept :
    (a a1 : LinkedListAllocator) (prev next : Option ℕ)
    → a1.head ≡ a.head
    → ((q : ℕ) → prev ≡ some q → a1.heap q ≡ a.heap q)
    → Kept a (relink a1 prev next) prev
relink-Kept a a1 none next head same = tt
relink-Kept a a1 (some q) next head same =
    let h : Header = record {
      next = next;
      capacity = (a1.heap q).capacity;
      magic = (a1.heap q).magic;
    } in
    let self = set_header_self a1.heap q h in
    (
      head,
      ap (λ (t : Header). t.capacity) self ∙ ap (λ (t : Header). t.capacity) (same q refl),
      ap (λ (t : Header). t.magic) self ∙ ap (λ (t : Header). t.magic) (same q refl),
    )

-- The chunk before is not one of the list.
abbrev pub Behind : Option ℕ → List Chunk → Type 0
Behind prev cs = (q : ℕ) → prev ≡ some q → Out q cs

module _ (a : LinkedListAllocator) (prev : Option ℕ) (c : Chunk) (cs : List Chunk) (size : ℕ)
    (listed : Represents a.heap (some c.addr) (c ∷ cs)) (heap_ok : IsHeap (c ∷ cs))
    (behind : Behind prev (c ∷ cs)) (linked : entry a prev ≡ some c.addr)
    (room : size ≤ c.capacity) where
  abbrev next : Option ℕ
  next = (a.heap c.addr).next

  -- All of the chunk is taken.
  abbrev whole : Header
  whole = record { next = none; capacity = (a.heap c.addr).capacity; magic = magic_allocated }

  behind_ne : (q : ℕ) → prev ≡ some q → q ≢ c.addr
  behind_ne q e same =
      let out = (behind q e).0 in elim out [ inl h ↦ omega arith | inr h ↦ omega arith ]

  outside_ne : (x : ℕ) → Out x (c ∷ cs) → x ≢ c.addr
  outside_ne x out same = elim out.0 [ inl h ↦ omega arith | inr h ↦ omega arith ]

  others_ne : All (λ d. d.addr ≢ c.addr) cs
  others_ne =
      All-mono cs (λ d apart. elim apart [ inl h ↦ λ e. omega arith | inr h ↦ λ e. omega arith ])
        heap_ok.1.0

  pub take_whole :
      ltb (c.capacity - size) (header_size + min_capacity) ≡ true
      → Taken a prev (c ∷ cs) size c (remainder c size ++ cs) (take_chunk a prev c.addr size none)
  take_whole small =
      let a1 : LinkedListAllocator = record a { heap = set_header a.heap c.addr whole } in
      let none_left : remainder c size ≡ [] = rw small in
      let same =
        Represents-cong cs a.heap a1.heap next
          (All-mono cs (λ d ne. set_header_ne a.heap c.addr d.addr whole ne) others_ne) listed.3 in
      let block : whole ≡ record { next = none; capacity = taken c size; magic = magic_allocated } =
        rw small (λ t. record { next = none; capacity = listed.1 t; magic = magic_allocated }) in
      record {
        listed =
            rw none_left
              (relink-Represents a1 prev next cs (λ q e. Out-ne q cs (behind q e).1) same);
        kept =
            relink-Kept a a1 prev next refl
              (λ q e. set_header_ne a.heap c.addr q whole (behind_ne q e));
        frame = λ x out ne.
            relink_other a1 prev next x ne ∙ set_header_ne a.heap c.addr x whole (outside_ne x out);
        block =
            relink_other a1 prev next c.addr (λ e. behind_ne c.addr e refl)
            ∙ set_header_self a.heap c.addr whole
            ∙ block;
      }

  module _ (large : ltb (c.capacity - size) (header_size + min_capacity) ≡ false) where
    abbrev new_addr : ℕ
    new_addr = data_ptr c.addr + size

    abbrev rest : Chunk
    rest = record { addr = new_addr; capacity = c.capacity - size - header_size }

    abbrev new_header : Header
    new_header = record {
      next = next;
      capacity = c.capacity - size - header_size;
      magic = magic_free;
    }

    abbrev shrunk : Header
    shrunk = record { next = none; capacity = size; magic = magic_allocated }

    abbrev a1 : LinkedListAllocator
    a1 = record a { heap = set_header (set_header a.heap new_addr new_header) c.addr shrunk }

    -- Headers outside the chunk are not touched.
    untouched : (x : ℕ) → (x < c.addr) ⊎ (end_of c ≤ x) → a1.heap x ≡ a.heap x
    untouched x out =
        let not_first : x ≢ c.addr = λ e. elim out [ inl h ↦ omega arith | inr h ↦ omega arith ] in
        let not_new : x ≢ new_addr = λ e. elim out [ inl h ↦ omega arith | inr h ↦ ground arith ] in
        set_header_ne (set_header a.heap new_addr new_header) c.addr x shrunk not_first
        ∙ set_header_ne a.heap new_addr x new_header not_new

    at_new : a1.heap new_addr ≡ new_header
    at_new =
        set_header_ne (set_header a.heap new_addr new_header) c.addr new_addr shrunk
          (λ e. omega arith)
        ∙ set_header_self a.heap new_addr new_header

    relisted : Represents a1.heap (some new_addr) (rest ∷ cs)
    relisted = (
      refl,
      ap (λ (t : Header). t.capacity) at_new,
      ap (λ (t : Header). t.magic) at_new,
      subst (λ (t : Header). Represents a1.heap t.next cs) (sym at_new)
          (Represents-cong cs a.heap a1.heap next
            (All-mono cs
              (λ d apart.
                untouched d.addr (elim apart [ inl h ↦ inr h | inr h ↦ inl (omega arith) ]))
              heap_ok.1.0)
            listed.3),
    )

    pub take_part :
        Taken a prev
          (c ∷ cs)
          size
          c
          (remainder c size ++ cs)
          (take_chunk a prev c.addr size (some (new_addr, c.capacity - size - header_size)))
    take_part =
        let one_left : remainder c size ≡ rest ∷ [] = rw large in
        let block : shrunk
            ≡ record { next = none; capacity = taken c size; magic = magic_allocated } =
          rw large in
        record {
          listed = rw one_left (
              relink-Represents a1 prev (some new_addr) (rest ∷ cs)
                (λ q e. (
                  (λ same. elim (behind q e).0 [ inl h ↦ omega arith | inr h ↦ ground arith ]),
                  Out-ne q cs (behind q e).1,
                ))
                relisted);
          kept = relink-Kept a a1 prev (some new_addr) refl (λ q e. untouched q (behind q e).0);
          frame = λ x out ne. relink_other a1 prev (some new_addr) x ne ∙ untouched x out.0;
          block =
              relink_other a1 prev (some new_addr) c.addr (λ e. behind_ne c.addr e refl)
              ∙ set_header_self (set_header a.heap new_addr new_header) c.addr shrunk
              ∙ block;
        }
