-- ===== src/Malloc/FirstFit.antt =====
-- The free list of libs/rust/ftl_malloc/src/lib.rs as a list of chunks, and first fit on it.
use ftl.Base.{
  ℕ, ◌+◌, ◌-◌, ◌%◌, ◌≤◌, ◌<◌, ◌≡◌, ◌≢◌, arith, ◌⊎◌, inl, inr, ltb, leb, ◌==◌, if◌then◌else◌, ◌&&◌,
  Bool, Option, none, some, List, [], ◌∷◌, ◌++◌, All, All-mono, Ordered,
}
use ftl.Malloc.{Heap, header_size, min_capacity, magic_free, data_ptr}

pub record Chunk : Type 0 where
  pub addr : ℕ
  pub capacity : ℕ

abbrev pub end_of : Chunk → ℕ
end_of c = c.addr + header_size + c.capacity

-- The list that starts at a pointer.
abbrev pub Represents : Heap → Option ℕ → List Chunk → Type 0
Represents heap next [] = next ≡ none
Represents heap next (c ∷ cs) =
    (next ≡ some c.addr)
    × ((heap c.addr).capacity ≡ c.capacity)
    × ((heap c.addr).magic ≡ magic_free)
    × Represents heap (heap c.addr).next cs

-- The address is in no chunk.
abbrev pub Out : ℕ → List Chunk → Type 0
Out x cs = All (λ c. (x < c.addr) ⊎ (end_of c ≤ x)) cs

abbrev pub Apart : Chunk → Chunk → Type 0
Apart c d = (end_of c ≤ d.addr) ⊎ (end_of d ≤ c.addr)

-- The chunks are aligned and do not overlap.
abbrev pub IsHeap : List Chunk → Type 0
IsHeap cs = All (λ c. c.addr % 16 ≡ 0) cs × Ordered Apart cs

abbrev pub fits : Chunk → ℕ → ℕ → Bool
fits c size align = leb size c.capacity && data_ptr c.addr % align == 0

-- What is left of a chunk of which `size` bytes are taken.
abbrev pub remainder : Chunk → ℕ → List Chunk
remainder c size =
    if ltb (c.capacity - size) (header_size + min_capacity)
    then []
    else record { addr = data_ptr c.addr + size; capacity = c.capacity - size - header_size } ∷ []

-- First fit: the chunk, and the list without it.
unfoldable pub first_fit : ℕ → ℕ → List Chunk → Option (Chunk × List Chunk)
first_fit size align [] = none
first_fit size align (c ∷ cs) =
    if fits c size align
    then some (c, remainder c size ++ cs)
    else elim (first_fit size align cs) [ none ↦ none | some (d, rest) ↦ some (d, c ∷ rest) ]

-- A list is the same under headers that are.
pub Represents-cong :
    (cs : List Chunk) (heap heap' : Heap) (next : Option ℕ)
    → All (λ c. heap' c.addr ≡ heap c.addr) cs
    → Represents heap next cs
    → Represents heap' next cs
Represents-cong [] heap heap' next same r = r
Represents-cong (c ∷ cs) heap heap' next same r =
    rw same.0 (r.0, r.1, r.2, Represents-cong cs heap heap' (heap c.addr).next same.1 r.3)

-- The start of a chunk is no address outside.
pub Out-ne : (x : ℕ) (cs : List Chunk) → Out x cs → All (λ c. c.addr ≢ x) cs
Out-ne x cs out =
    All-mono cs (λ c o. elim o [ inl h ↦ λ e. omega arith | inr h ↦ λ e. omega arith ]) out

-- An address in one chunk is outside the others.
pub Out-inside :
    (x : ℕ) (c : Chunk) (cs : List Chunk) → c.addr ≤ x → x < end_of c → All (Apart c) cs → Out x cs
Out-inside x c cs lo hi apart =
    All-mono cs (λ d a. elim a [ inl h ↦ inl (omega arith) | inr h ↦ inr (omega arith) ]) apart

-- A taken chunk comes from the list, and the chunks left lie outside it: what is taken of it is its header and
-- `taken` bytes.
abbrev pub taken : Chunk → ℕ → ℕ
taken c size = if ltb (c.capacity - size) (header_size + min_capacity) then c.capacity else size
