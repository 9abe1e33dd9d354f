-- ===== src/Memory/Init/Grow.antt =====
-- How the calls of `add_region` extend what the page allocator has left, address by address.

use mathlib.Core.List.{map-append}
use ftl.Base.{ℕ, ◌≡◌, ◌⊎◌, inl, inr, List, [], ◌∷◌, ◌++◌, map, length, ◌==◌, Bool-cases}
use ftl.Base.Word.{IsUsize}
use ftl.Bump
use ftl.Memory.Visit.{Range, range}
use ftl.Memory.Visit.Exact.{In, InSome, InSome-append}
use ftl.Memory.Page.{PageAllocator, add_region}
use ftl.Memory.Page.Frames.{span, Left, Separate, Small}

module _ (x : ℕ) where
  Separate-append :
      (rs : List Range) (r : Range)
      → Separate x rs
      → (InSome x rs → ¬ (In x r))
      → Separate x (rs ++ r ∷ [])
  Separate-append [] r s h = ((λ i j. j), tt)
  Separate-append (q ∷ rs) r s h = (
    λ i l. elim ((InSome-append x rs (r ∷ [])).0 l) [
      | inl j ↦ s.0 i j
      | inr j ↦ elim j [ inl k ↦ h (inl i) k | inr k ↦ k ]
    ],
    Separate-append rs r s.1 (λ i. h (inr i)),
  )

  -- `p'` has what `p` has left and at most `N` more; where `D` holds, no address is there twice.
  pub record Extends (p p' : PageAllocator) (N D : Type 0) : Type 0 where
    pub left : Left x p'.regions → Left x p.regions ⊎ N
    pub separate :
        D
        → Separate x (map span p.regions)
        → (Left x p.regions → ¬ N)
        → Separate x (map span p'.regions)
    pub small : Small p.regions → Small p'.regions

  pub Extends-none : (p : PageAllocator) {N D : Type 0} → Extends p p N D
  Extends-none p = record { left = inl; separate = λ d s n. s; small = λ s. s }

  pub Extends-trans :
      {p q r : PageAllocator} {N M D E F : Type 0}
      → Extends p q N D
      → Extends q r M E
      → (F → D × E × (N → ¬ M))
      → Extends p r (N ⊎ M) F
  Extends-trans a b f = record {
    left = λ l. elim (b.left l) [
      | inl i ↦ elim (a.left i) [ inl j ↦ inl j | inr n ↦ inr (inl n) ]
      | inr m ↦ inr (inr m)
    ];
    separate = λ d s n.
        b.separate (f d).1 (a.separate (f d).0 s (λ l i. n l (inl i)))
          (λ l m. elim (a.left l) [ inl i ↦ n i (inr m) | inr i ↦ (f d).2 i m ]);
    small = λ s. b.small (a.small s);
  }

  pub Extends-mono :
      {p q : PageAllocator} {N M D E : Type 0}
      → Extends p q N D
      → (N → M)
      → (E → D)
      → Extends p q M E
  Extends-mono a f g = record {
    left = λ l. elim (a.left l) [ inl i ↦ inl i | inr n ↦ inr (f n) ];
    separate = λ e s n. a.separate (g e) s (λ l i. n l (f i));
    small = a.small;
  }

  Small-append :
      (xs : List Bump.BumpAllocator) (y : Bump.BumpAllocator)
      → Small xs
      → IsUsize y.next
      → Small (xs ++ y ∷ [])
  Small-append [] y a h = (h, tt)
  Small-append (z ∷ xs) y a h = (a.0, Small-append xs y a.1 h)

  add_region_cases :
      (p : PageAllocator) (s e : ℕ)
      → (add_region p s e ≡ p)
        ⊎ (add_region p s e ≡ record p { regions = p.regions ++ Bump.new s e ∷ [] })
  unfolding add_region
  add_region_cases p s e = elim (Bool-cases (length p.regions == 8)) [
    | inl full ↦ inl (rw full)
    | inr room ↦ inr (rw room)
  ]

  pub add_region-Extends :
      (p : PageAllocator) (s e : ℕ)
      → IsUsize e
      → Extends p (add_region p s e) (In x (range s e)) Unit
  add_region-Extends p s e h = elim (add_region_cases p s e) [
    | inl same ↦ rw same (Extends-none p)
    | inr more ↦ rw more (record {
      left = λ l. elim ((InSome-append x (map span p.regions) _).0 (rw (map-append) at l)) [
        | inl i ↦ inl i
        | inr j ↦ elim j [ inl i ↦ inr i | inr k ↦ absurd k ]
      ];
      separate = λ d sep n. rw map-append (Separate-append (map span p.regions) _ sep n);
      small = λ a. Small-append p.regions (Bump.new s e) a h;
    })
  ]
