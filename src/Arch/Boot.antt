-- ===== src/Arch/Boot.antt =====
-- What the parsers of boot information in kernel/src/arch/x64 share: memory is the byte at each virtual address, and a vector
-- of eight values leaves the others out.
use ftl.Base.{
  ℕ, zero, suc, ◌+◌, ◌^◌, ◌≤◌, ◌<◌, ◌≡◌, refl, ap, sym, subst, ◌∙◌, arith, ◌==◌, true, false,
  Bool-cases, inl, inr, List, [], ◌∷◌, ◌++◌, length, take, length-append,
}
use mathlib.Core.List.{append_assoc, append-nil}
use ftl.Base.Ram.{Ram}
use ftl.Base.Held.{Holds, Holds-append}
use ftl.Arch.Direct.{paddr2vaddr, paddr2vaddr-add}
use ftl.ArrayVec.Bounded
use ftl.ArrayVec.Bounded.{answer}

-- What memory holds at a physical address.
abbrev pub HoldsAt : Ram → ℕ → List ℕ → Type 0
HoldsAt ram at bytes = Holds ram (paddr2vaddr at) bytes

-- Behind a first part, below 2 ^ 47.
pub HoldsAt-append :
    (ram : Ram) (at : ℕ) (xs ys : List ℕ)
    → at + length xs < 2 ^ 47
    → HoldsAt ram at (xs ++ ys)
    → HoldsAt ram at xs × HoldsAt ram (at + length xs) ys
HoldsAt-append ram at xs ys small h =
    let (front, back) = Holds-append ram (paddr2vaddr at) xs ys h in
    let here = paddr2vaddr-add at (omega arith) in
    let there = paddr2vaddr-add (at + length xs) small in
    (front, subst (λ (a : ℕ). Holds ram a ys) (omega arith) back)

-- The capacity of `modules` and `free_rams`.
abbrev pub num_slots : ℕ
num_slots = 8

-- `try_push`, where a failure is only traced.
unfoldable pub push_or_drop {ℓ} : {A : Type ℓ} → List A → A → List A
push_or_drop xs x = (answer num_slots xs (Bounded.push x)).1

unfoldable pub push_each {ℓ} : {A : Type ℓ} → List A → List A → List A
push_each xs [] = xs
push_each xs (y ∷ ys) = push_each (push_or_drop xs y) ys

module _ {ℓ} {A : Type ℓ} where
  push_or_drop-full : (xs : List A) (x : A) → length xs ≡ 8 → push_or_drop xs x ≡ xs
  unfolding push_or_drop answer
  push_or_drop-full xs x h =
      let full : (length xs == 8) ≡ true = ground arith in rw (push_or_drop, answer, full) refl

  push_or_drop-room : (xs : List A) (x : A) → length xs < 8 → push_or_drop xs x ≡ xs ++ (x ∷ [])
  unfolding push_or_drop answer
  push_or_drop-room xs x h =
      let room : (length xs == 8) ≡ false = ground arith in rw (push_or_drop, answer, room) refl

  take-full : (xs ys : List A) → take (length xs) (xs ++ ys) ≡ xs
  take-full [] ys = refl
  take-full (x ∷ xs) ys = ap (◌∷◌ x) (take-full xs ys)

  take-whole : (n : ℕ) (xs : List A) → length xs ≤ n → take n xs ≡ xs
  take-whole zero [] h = refl
  take-whole zero (x ∷ xs) h = absurd (omega arith)
  take-whole (suc n) [] h = refl
  take-whole (suc n) (x ∷ xs) h = ap (◌∷◌ x) (take-whole n xs (omega arith))

  -- The first eight values stay.
  pub push_each-take : (ys xs : List A) → length xs ≤ 8 → push_each xs ys ≡ take 8 (xs ++ ys)
  unfolding push_each
  push_each-take [] xs h =
      sym (take-whole 8 (xs ++ []) (omega (arith, length-append xs [])) ∙ append-nil xs)
  push_each-take (y ∷ ys) xs h = elim (Bool-cases (length xs == 8)) [
    | inl full ↦
        let e : length xs ≡ 8 = ground arith in
        ap (λ (l : List A). push_each l ys) (push_or_drop-full xs y e)
        ∙ push_each-take ys xs h
        ∙ ap (λ (n : ℕ). take n (xs ++ ys)) (sym e)
        ∙ take-full xs ys
        ∙ sym (ap (λ (n : ℕ). take n (xs ++ (y ∷ ys))) (sym e) ∙ take-full xs (y ∷ ys))
    | inr room ↦
        let e : length xs < 8 = ground arith in
        ap (λ (l : List A). push_each l ys) (push_or_drop-room xs y e)
        ∙ push_each-take ys (xs ++ (y ∷ [])) (omega (arith, length-append xs (y ∷ [])))
        ∙ ap (take 8) (append_assoc xs (y ∷ []) ys)
  ]

  pub push_each-append :
      (xs ys zs : List A) → push_each xs (ys ++ zs) ≡ push_each (push_each xs ys) zs
  unfolding push_each
  push_each-append xs [] zs = refl
  push_each-append xs (y ∷ ys) zs = push_each-append (push_or_drop xs y) ys zs
