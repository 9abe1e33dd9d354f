-- ===== src/Memory/Sort/Sorted.antt =====
-- `bubble_sort` by a key: no index is out of range, and the result is a sorted permutation.
use mathlib.Core.List.{Perm, append_assoc, append-nil}
use mathlib.Core.List.Perm
use ftl.Base.{
  ℕ, zero, suc, ◌+◌, ◌≤◌, ◌≡◌, refl, ap, arith, ltb, if◌then◌else◌, Bool, List, [], ◌∷◌, ◌++◌,
  length, length-append, Bool-cases, inl, inr, All, All-both, Ordered, subst, Exec, done,
}
use ftl.Memory.Sort.{compare_swap, inner_loop, outer_loop, bubble_sort}

module _ {ℓ} {A : Type ℓ} (f : A → A → Bool) where
  lower : A → A → A
  lower x y = if f x y then y else x

  upper : A → A → A
  upper x y = if f x y then x else y

  compare_swap-at :
      (pre : List A) (x y : A) (r : List A)
      → compare_swap f (pre ++ x ∷ y ∷ r) (length pre) ≡ done (pre ++ lower x y ∷ upper x y ∷ r)
  unfolding compare_swap lower upper
  compare_swap-at [] x y r = ground arith
  compare_swap-at (p ∷ pre) x y r = rw (compare_swap-at pre x y r)

  -- One round of the inner loop carries the greater entry along: what it leaves, and that entry.
  carry : A → List A → List A × A
  carry x [] = ([], x)
  carry x (y ∷ a) = let (rest, top) = carry (upper x y) a in (lower x y ∷ rest, top)

  inner_loop-carry :
      (a pre : List A) (x : A) (s : List A)
      → inner_loop f (length a) (length pre) (pre ++ (x ∷ (a ++ s)))
        ≡ done (pre ++ ((carry x a).0 ++ ((carry x a).1 ∷ s)))
  unfolding inner_loop carry
  inner_loop-carry [] pre x s = refl
  inner_loop-carry (y ∷ a) pre x s = ground (
    arith,
    compare_swap-at pre x y (a ++ s),
    inner_loop-carry a (pre ++ lower x y ∷ []) (upper x y) s,
    length-append pre (lower x y ∷ []),
    append_assoc pre (lower x y ∷ []) (upper x y ∷ (a ++ s)),
    append_assoc pre (lower x y ∷ []) ((carry (upper x y) a).0 ++ ((carry (upper x y) a).1 ∷ s)),
  )

  length-carry : (a : List A) (x : A) → length (carry x a).0 ≡ length a
  unfolding carry
  length-carry [] x = refl
  length-carry (y ∷ a) x = ap suc (length-carry a (upper x y))

  carry-All {κ} :
      (P : A → Type κ) (a : List A) (x : A) → All P (x ∷ a) → All P (carry x a).0 × P (carry x a).1
  unfolding carry lower upper
  carry-All P [] x h = (tt, h.0)
  carry-All P (y ∷ a) x h = elim (Bool-cases (f x y)) [
    | inl swap ↦ rw swap (let r = carry-All P a x (h.0, h.1.1) in ((h.1.0, r.0), r.1))
    | inr keep ↦ rw keep (let r = carry-All P a y (h.1.0, h.1.1) in ((h.0, r.0), r.1))
  ]

  order-perm : (x y : A) (r : List A) → Perm (lower x y ∷ upper x y ∷ r) (x ∷ y ∷ r)
  unfolding lower upper
  order-perm x y r = elim (Bool-cases (f x y)) [
    | inl swap ↦ rw swap (Perm.swap x y r)
    | inr keep ↦ rw keep (Perm.refl (x ∷ y ∷ r))
  ]

  carry-perm : (a : List A) (x : A) → Perm ((carry x a).0 ++ (carry x a).1 ∷ []) (x ∷ a)
  unfolding carry
  carry-perm [] x = Perm.refl (x ∷ [])
  carry-perm (y ∷ a) x =
      Perm.trans (Perm.cons (lower x y) (carry-perm a (upper x y))) (order-perm x y a)

module _ {ℓ} {A : Type ℓ} (key : A → ℕ) where
  -- The comparison that the caller passes: `|a, b| a.key > b.key`.
  abbrev pub greater : A → A → Bool
  greater a b = ltb (key b) (key a)

  abbrev pub AscendBy : List A → Type 0
  AscendBy = Ordered λ a b. key a ≤ key b

  order_keys :
      (x y : A)
      → (key x ≤ key (upper greater x y)) × (key (lower greater x y) ≤ key (upper greater x y))
  unfolding lower upper
  order_keys x y = ground arith

  carry-top :
      (a : List A) (x : A)
      → (key x ≤ key (carry greater x a).1)
        × All (λ b. key b ≤ key (carry greater x a).1) (carry greater x a).0
  unfolding carry
  carry-top [] x = (omega arith, tt)
  carry-top (y ∷ a) x =
      let r = carry-top a (upper greater x y) in
      let o = order_keys x y in (omega arith, (omega arith, r.1))

  abbrev Above : List A → A → Type 0
  Above s b = All (λ c. key b ≤ key c) s

  nothing-Above : (l : List A) → All (Above []) l
  nothing-Above [] = tt
  nothing-Above (x ∷ l) = (tt, nothing-Above l)

  abbrev Sorts : Exec (List A) → List A → Type ℓ
  Sorts m l = (r : List A) × (m ≡ done r) × AscendBy r × Perm r l

  outer_loop-Sorts :
      (n i len : ℕ) (p s : List A)
      → length p ≡ n
      → n + i ≡ len
      → AscendBy s
      → All (Above s) p
      → Sorts (outer_loop greater len n i (p ++ s)) (p ++ s)
  unfolding outer_loop
  outer_loop-Sorts zero i len [] s el en asc above = (s, refl, asc, Perm.refl s)
  outer_loop-Sorts zero i len (x ∷ a) s el en asc above = absurd (omega arith)
  outer_loop-Sorts (suc n) i len [] s el en asc above = absurd (omega arith)
  outer_loop-Sorts (suc n) i len (x ∷ a) s el en asc above =
      let all = carry-All greater (Above s) a x above in
      let (r, run, sorted, perm) =
        outer_loop-Sorts n (i + 1) len (carry greater x a).0 ((carry greater x a).1 ∷ s)
          (omega (arith, length-carry greater a x)) (omega arith) (all.1, asc)
          (All-both (λ b. key b ≤ key (carry greater x a).1) (Above s) (carry greater x a).0
            (carry-top a x).1 all.0) in
      (
        r,
        ground (arith, run, inner_loop-carry greater a [] x s),
        sorted,
        Perm.trans perm (
            subst (λ l. Perm l (x ∷ (a ++ s)))
              (append_assoc (carry greater x a).0 ((carry greater x a).1 ∷ []) s)
              (Perm.append_right s (carry-perm greater a x))),
      )

  -- Sorting by a key, with the comparison `a.key > b.key`, never panics: no index is out of range.
  -- The result holds the same entries, as often, and its keys ascend.
  pub bubble_sort-sorts :
      (l : List A) → (r : List A) × (bubble_sort greater l ≡ done r) × AscendBy r × Perm r l
  unfolding bubble_sort
  bubble_sort-sorts l =
      subst (λ k. Sorts (outer_loop greater (length l) (length l) 0 k) k) (append-nil l)
        (outer_loop-Sorts (length l) 0 (length l) l [] refl (omega arith) tt (nothing-Above l))
