-- ===== src/Bump/Placement.antt =====
-- Where one block is placed, and when there is none.
use native.Mathlib.Nat.{one-le-pow, mul-mod_left}
use ftl.Base.{
  ℕ, ◌+◌, ◌-◌, ◌*◌, ◌/◌, ◌%◌, ◌^◌, ◌≤◌, ◌<◌, ◌≡◌, arith, done, none, some, ◌⊎◌, inl, inr,
}
use native.Mathlib.Decide.{dec_le}
use ftl.Base.Word.{IsUsize}
use ftl.Align.Laws.{align_down-pow}
use ftl.Align.Rounding.{floor_bounds, floor_greatest}
use ftl.Bump.{BumpAllocator, alloc}

-- The address that `alloc` tries.
abbrev pub candidate : BumpAllocator → ℕ → ℕ → ℕ
candidate b size k = (b.next - size) / 2 ^ k * 2 ^ k

abbrev pub Fits : BumpAllocator → ℕ → ℕ → Type 0
Fits b size k = (size ≤ b.next) × (b.start ≤ candidate b size k)

pub alloc-Fits :
    (b : BumpAllocator) (size k : ℕ)
    → IsUsize b.next
    → k < 64
    → Fits b size k
    → alloc b size (2 ^ k)
      ≡ done (some (candidate b size k), record b { next = candidate b size k })
unfolding alloc
alloc-Fits b size k hn hk f = ground (arith, align_down-pow (b.next - size) k)

pub alloc-not-Fits :
    (b : BumpAllocator) (size k : ℕ)
    → IsUsize b.next
    → k < 64
    → ¬ (Fits b size k)
    → alloc b size (2 ^ k) ≡ done (none, b)
unfolding alloc
alloc-not-Fits b size k hn hk f = ground (arith, align_down-pow (b.next - size) k)

-- `alloc` for a power of two, on either branch: it takes a block of the asked size at an aligned
-- address, inside what is left of the region, and moves `next` down to it; or it returns `None`,
-- changes nothing, and no aligned block of that size fits in what is left.
pub alloc_places :
    (b : BumpAllocator) (size k : ℕ)
    → IsUsize b.next
    → k < 64
    → ((a : ℕ) × (alloc b size (2 ^ k) ≡ done (some a, record b { next = a }))
        × (b.start ≤ a)
        × (a + size ≤ b.next)
        × (a % 2 ^ k ≡ 0))
      ⊎ ((alloc b size (2 ^ k) ≡ done (none, b))
          × ((a : ℕ) → b.start ≤ a → a + size ≤ b.next → a % 2 ^ k ≡ 0 → ⊥))
alloc_places b size k hn hk = elim (dec_le size b.next) [
  | no big ↦ inr (alloc-not-Fits b size k hn hk (λ f. big f.0), λ a _ h _. big (omega arith))
  | yes small ↦ elim (dec_le b.start (candidate b size k)) [
    | yes room ↦ inl (
      candidate b size k,
      alloc-Fits b size k hn hk (small, room),
      room,
      omega (arith, floor_bounds (2 ^ k) pos (b.next - size)),
      mul-mod_left ((b.next - size) / 2 ^ k) (2 ^ k),
    )
    | no full ↦ inr (
      alloc-not-Fits b size k hn hk (λ f. full f.1),
      λ a lo hi e.
          full (omega (arith, floor_greatest (2 ^ k) pos (b.next - size) a (omega arith) e)),
    )
  ]
]
  where
    pos : 0 < 2 ^ k
    pos = one-le-pow k 2 (omega arith)
