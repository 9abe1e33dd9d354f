-- ===== src/Bump/Disjoint.antt =====
-- Sequences of allocations: the blocks lie in the region and apart from one another.
use ftl.Base.{
  ℕ, ◌+◌, ◌^◌, ◌≤◌, ◌<◌, ◌≡◌, refl, ◌⊎◌, inl, inr, arith, done, Exec, ◌>>=◌, Option, none, some,
  List, [], ◌∷◌, All, Ordered, All-mono,
}
use ftl.Base.Word.{IsUsize}
use ftl.Bump.{BumpAllocator, alloc}
use ftl.Bump.Placement.{alloc_places}

-- A request: a size and the exponent of the alignment.
abbrev pub Request : Type 0
Request = ℕ × ℕ

-- A block that was handed out.
pub record Block : Type 0 where
  pub addr : ℕ
  pub size : ℕ

abbrev granted : Option ℕ → ℕ → List Block → List Block
granted none size blocks = blocks
granted (some a) size blocks = record { addr = a; size = size } ∷ blocks

-- The calls of a client in order, and the blocks that they return.
pub alloc_all : BumpAllocator → List Request → Exec (List Block × BumpAllocator)
alloc_all b [] = done ([], b)
alloc_all b ((size, k) ∷ rest) = do
  (a, b') ← alloc b size (2 ^ k)
  (blocks, b'') ← alloc_all b' rest
  done (granted a size blocks, b'')

abbrev pub Apart : Block → Block → Type 0
Apart x y = (x.addr + x.size ≤ y.addr) ⊎ (y.addr + y.size ≤ x.addr)

abbrev pub InRegion : ℕ → ℕ → Block → Type 0
InRegion lo hi x = (lo ≤ x.addr) × (x.addr + x.size ≤ hi)

abbrev pub PowersOnly : List Request → Type 0
PowersOnly = All λ r. r.1 < 64

abbrev Served : BumpAllocator → List Request → Type 0
Served b rs =
    (blocks : List Block) × (b' : BumpAllocator) × (alloc_all b rs ≡ done (blocks, b'))
    × All (InRegion b.start b.next) blocks
    × Ordered Apart blocks

serve_more :
    (b : BumpAllocator) (size k a : ℕ) (rest : List Request)
    → alloc b size (2 ^ k) ≡ done (some a, record b { next = a })
    → b.start ≤ a
    → a + size ≤ b.next
    → Served (record b { next = a }) rest
    → Served b ((size, k) ∷ rest)
unfolding alloc_all
serve_more b size k a rest e lo hi (blocks, b', run, within, apart) = (
  record { addr = a; size = size } ∷ blocks,
  b',
  rw (e, ◌>>=◌) (rw (run, ◌>>=◌)),
  ((lo, hi), All-mono blocks (λ x h. (h.0, omega arith)) within),
  (All-mono blocks (λ x h. inr h.1) within, apart),
)

-- Whatever the sizes, a sequence of allocations with powers of two for alignments never panics, and
-- the blocks that it hands out lie in the region and do not overlap.
alloc_all_disjoint :
    (b : BumpAllocator) (rs : List Request)
    → IsUsize b.next
    → PowersOnly rs
    → (blocks : List Block) × (b' : BumpAllocator) × (alloc_all b rs ≡ done (blocks, b'))
      × All (InRegion b.start b.next) blocks
      × Ordered Apart blocks
unfolding alloc_all
alloc_all_disjoint b [] hn hk = ([], b, refl, tt, tt)
alloc_all_disjoint b ((size, k) ∷ rest) hn hk = elim (alloc_places b size k hn hk.0) [
  | inl (a, e, lo, hi, _) ↦
      serve_more b size k a rest e lo hi
        (alloc_all_disjoint (record b { next = a }) rest (omega arith) hk.1)
  | inr (e, _) ↦
      let (blocks, b', run, within, apart) = alloc_all_disjoint b rest hn hk.1 in
      (blocks, b', rw (e, ◌>>=◌) (rw (run, ◌>>=◌)), within, apart)
]
