-- ===== src/Memory/Page/Frames.antt =====
-- The frames that the page allocator hands out: each is taken from what its regions have left, and
-- leaves the rest. Everything is said address by address: `x` is any one address.
use ftl.Base.{
  ℕ, ◌+◌, ◌%◌, ◌^◌, ◌≤◌, ◌≡◌, refl, ◌⊎◌, inl, inr, arith, none, some, List, [], ◌∷◌, map, All, done,
  ◌>>=◌,
}
use ftl.Base.Word.{IsUsize}
use ftl.Bump.{BumpAllocator}
use ftl.Bump.Placement.{alloc_places}
use ftl.Memory.Visit.{Range, range}
use ftl.Memory.Visit.Exact.{In, InSome}
use ftl.Memory.Page.{alloc_from}

-- What a region has left.
abbrev pub span : BumpAllocator → Range
span b = range b.start b.next

abbrev pub Left : ℕ → List BumpAllocator → Type 0
Left x rs = InSome x (map span rs)

-- At most one of the ranges holds the address.
abbrev pub Separate : ℕ → List Range → Type 0
Separate x [] = Unit
Separate x (r ∷ rs) = (In x r → ¬ (InSome x rs)) × Separate x rs

abbrev pub Small : List BumpAllocator → Type 0
Small = All λ b. IsUsize b.next

-- The frame of `len` bytes at `a`.
abbrev pub frame : ℕ → ℕ → Range
frame a len = range a (a + len)

-- The outcome of `alloc_from`: a frame carved out of what was left, or nothing.
pub record Carved (x : ℕ) (rs rs' : List BumpAllocator) (a len : ℕ) : Type 0 where
  pub aligned : a % 2 ^ 12 ≡ 0
  pub taken : In x (frame a len) → Left x rs
  pub rest : Left x rs' → Left x rs
  pub gone : Separate x (map span rs) → Left x rs' → ¬ (In x (frame a len))
  pub separate : Separate x (map span rs) → Separate x (map span rs')
  pub small : Small rs → Small rs'

module _ (x len : ℕ) where
  here :
      (r : BumpAllocator) (rs : List BumpAllocator) (a : ℕ)
      → r.start ≤ a
      → a + len ≤ r.next
      → a % 2 ^ 12 ≡ 0
      → Carved x (r ∷ rs) (record r { next = a } ∷ rs) a len
  here r rs a lo hi al = record {
    aligned = al;
    taken = λ i. inl (omega arith);
    rest = elim [ inl i ↦ inl (omega arith) | inr i ↦ inr i ];
    gone = λ s. elim [ inl i ↦ λ f. omega arith | inr i ↦ λ f. s.0 (omega arith) i ];
    separate = λ s. ((λ i. s.0 (omega arith)), s.1);
    small = λ s. (omega arith, s.1);
  }

  later :
      (r : BumpAllocator) (rs rs' : List BumpAllocator) (a : ℕ)
      → Carved x rs rs' a len
      → Carved x (r ∷ rs) (r ∷ rs') a len
  later r rs rs' a c = record {
    aligned = c.aligned;
    taken = λ i. inr (c.taken i);
    rest = elim [ inl i ↦ inl i | inr i ↦ inr (c.rest i) ];
    gone = λ s. elim [ inl i ↦ λ f. s.0 i (c.taken f) | inr i ↦ c.gone s.1 i ];
    separate = λ s. ((λ i l. s.0 i (c.rest l)), c.separate s.1);
    small = λ s. (s.0, c.small s.1);
  }

abbrev pub Outcome : ℕ → List BumpAllocator → Type 0
Outcome len rs =
    ((a : ℕ) × (rs' : List BumpAllocator) × (alloc_from rs len ≡ done (some a, rs'))
      × ((x : ℕ) → Carved x rs rs' a len))
    ⊎ (alloc_from rs len ≡ done (none, rs))

pub alloc_from-Outcome : (len : ℕ) (rs : List BumpAllocator) → Small rs → Outcome len rs
unfolding alloc_from
alloc_from-Outcome len [] s = inr refl
alloc_from-Outcome len (r ∷ rs) s = elim (alloc_places r len 12 s.0 (omega arith)) [
  | inl (a, e, lo, hi, al) ↦
      inl (a, record r { next = a } ∷ rs, rw (e, ◌>>=◌), λ x. here x len r rs a lo hi al)
  | inr (e, _) ↦ elim (alloc_from-Outcome len rs s.1) [
    | inl (a, rs', e', c) ↦
        inl (a, r ∷ rs', rw (e, ◌>>=◌) (rw (e', ◌>>=◌)), λ x. later x len r rs rs' a (c x))
    | inr e' ↦ inr (rw (e, ◌>>=◌) (rw (e', ◌>>=◌)))
  ]
]
