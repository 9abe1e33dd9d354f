-- ===== src/Memory/Init/Order.antt =====
-- What a permutation of ranges keeps: the addresses that they hold, and properties of every range.
use mathlib.Core.List.{Perm, Permᴰ}
use mathlib.Core.Logic.{∥∥₁_elim}
use mathlib.Core.HLevel.{×_prop, ⊥_prop}
use ftl.Base.{ℕ, inl, inr, List, [], ◌∷◌, All, subst, sym}
use ftl.Memory.Visit.{Range}
use ftl.Memory.Visit.Exact.{In, InSome}

module _ (x : ℕ) where
  InSome-Permᴰ : {rs ss : List Range} → Permᴰ rs ss → InSome x ss → InSome x rs
  InSome-Permᴰ Permᴰ.nil i = i
  InSome-Permᴰ (Permᴰ.cons e p) (inl i) = inl (subst (In x) (sym e) i)
  InSome-Permᴰ (Permᴰ.cons e p) (inr i) = inr (InSome-Permᴰ p i)
  InSome-Permᴰ (Permᴰ.swap e f) (inl i) = inr (inl (subst (In x) (sym f) i))
  InSome-Permᴰ (Permᴰ.swap e f) (inr (inl i)) = inl (subst (In x) (sym e) i)
  InSome-Permᴰ (Permᴰ.swap e f) (inr (inr i)) = inr (inr i)
  InSome-Permᴰ (Permᴰ.trans p q) i = InSome-Permᴰ p (InSome-Permᴰ q i)

  pub not-InSome-Perm : {rs ss : List Range} → Perm rs ss → ¬ (InSome x rs) → ¬ (InSome x ss)
  not-InSome-Perm p n i = ∥∥₁_elim p ⊥_prop (λ d. n (InSome-Permᴰ d i))

module _ {P : Range → Type 0} (pP : (r : Range) → IsProp (P r)) where
  All-prop : (rs : List Range) → IsProp (All P rs)
  All-prop [] = hlevel
  All-prop (r ∷ rs) = ×_prop (pP r) (All-prop rs)

  All-Permᴰ : {rs ss : List Range} → Permᴰ rs ss → All P ss → All P rs
  All-Permᴰ Permᴰ.nil a = a
  All-Permᴰ (Permᴰ.cons e p) a = (subst P (sym e) a.0, All-Permᴰ p a.1)
  All-Permᴰ (Permᴰ.swap e f) a = (subst P (sym e) a.1.0, (subst P (sym f) a.0, a.1.1))
  All-Permᴰ (Permᴰ.trans p q) a = All-Permᴰ p (All-Permᴰ q a)

  pub All-Perm : (rs : List Range) {ss : List Range} → Perm rs ss → All P ss → All P rs
  All-Perm rs p a = ∥∥₁_elim p (All-prop rs) (λ d. All-Permᴰ d a)
