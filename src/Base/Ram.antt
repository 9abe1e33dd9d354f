-- ===== src/Base/Ram.antt =====
-- Memory as a function from addresses to bytes: writing and reading a run of bytes.
use Prim.Native.Nat.{ℕ, zero, suc, ◌+◌, ◌-◌, ◌≤◌, ◌<◌}
use mathlib.Core.Path.{◌≡◌, refl, sym, ap, ap₂, ◌∙◌}
use mathlib.Core.List.{List, [], ◌∷◌, ◌++◌}
use mathlib.Core.Logic.{◌⊎◌, inl, inr}
use mathlib.Core.Bool.{false}
use native.Mathlib.Omega.{arith}
use ftl.Base.Tests.{ltb, if◌then◌else◌, Bool-cases}
use ftl.Base.Lists.{length, take, drop, length-take}

-- The byte at each address.
abbrev pub Ram : Type 0
Ram = ℕ → ℕ

-- The byte at `x` after `bytes` are written from `at` on, where `old` was before.
abbrev pub byte_or : List ℕ → ℕ → ℕ
byte_or bytes old = elim bytes [ [] ↦ old | b ∷ _ ↦ b ]

-- `copy_nonoverlapping` into memory.
unfoldable pub store : Ram → ℕ → List ℕ → Ram
store ram at bytes x = if ltb x at then ram x else byte_or (drop (x - at) bytes) (ram x)

-- `copy_nonoverlapping` out of memory.
unfoldable pub load : Ram → ℕ → ℕ → List ℕ
load ram at zero = []
load ram at (suc n) = ram at ∷ load ram (at + 1) n

pub length-load : (ram : Ram) (at n : ℕ) → length (load ram at n) ≡ n
unfolding load
length-load ram at zero = refl
length-load ram at (suc n) = ap suc (length-load ram (at + 1) n)

drop-nil_of_le : (bytes : List ℕ) (n : ℕ) → length bytes ≤ n → drop n bytes ≡ []
drop-nil_of_le [] zero h = refl
drop-nil_of_le [] (suc n) h = refl
drop-nil_of_le (b ∷ bs) zero h = absurd (omega arith)
drop-nil_of_le (b ∷ bs) (suc n) h = drop-nil_of_le bs n (omega arith)

-- Outside the run nothing changes.
pub store_before :
    (ram : Ram) (at : ℕ) (bytes : List ℕ) (x : ℕ) → x < at → store ram at bytes x ≡ ram x
unfolding store
store_before ram at bytes x h = ground arith

pub store_after :
    (ram : Ram) (at : ℕ) (bytes : List ℕ) (x : ℕ)
    → at + length bytes ≤ x
    → store ram at bytes x ≡ ram x
unfolding store
store_after ram at bytes x h = elim (Bool-cases (ltb x at)) [
  | inl e ↦ rw e
  | inr e ↦ rw (e, drop-nil_of_le bytes (x - at) (omega arith))
]

pub store_outside :
    (ram : Ram) (at : ℕ) (bytes : List ℕ) (x : ℕ)
    → (x < at) ⊎ (at + length bytes ≤ x)
    → store ram at bytes x ≡ ram x
store_outside ram at bytes x (inl h) = store_before ram at bytes x h
store_outside ram at bytes x (inr h) = store_after ram at bytes x h

pub store-nil : (ram : Ram) (at x : ℕ) → store ram at [] x ≡ ram x
unfolding store
store-nil ram at x = elim (Bool-cases (ltb x at)) [
  | inl e ↦ rw e
  | inr e ↦ rw (e, drop-nil_of_le [] (x - at) (omega arith))
]

-- Inside it the old bytes and the place do not matter.
drop-cons_of_lt :
    (bytes : List ℕ) (n : ℕ)
    → n < length bytes
    → (b : ℕ) × (rest : List ℕ) × (drop n bytes ≡ b ∷ rest)
drop-cons_of_lt [] n h = absurd (omega arith)
drop-cons_of_lt (b ∷ bs) zero h = (b, bs, refl)
drop-cons_of_lt (b ∷ bs) (suc n) h = drop-cons_of_lt bs n (omega arith)

pub store_inside :
    (ram ram' : Ram) (at at' : ℕ) (bytes : List ℕ) (i : ℕ)
    → i < length bytes
    → store ram (at) bytes (at + i) ≡ store ram' at' bytes (at' + i)
unfolding store
store_inside ram ram' at at' bytes i h =
    let (b, rest, e) = drop-cons_of_lt bytes i h in
    let left : at + i - at ≡ i = omega arith in
    let right : at' + i - at' ≡ i = omega arith in
    let here : ltb (at + i) at ≡ false = ground arith in
    let there : ltb (at' + i) at' ≡ false = ground arith in rw (here, there, left, right, e)

drop-drop : (bytes : List ℕ) (m n : ℕ) → drop n (drop m bytes) ≡ drop (m + n) bytes
drop-drop bytes zero n = ap (λ (k : ℕ). drop k bytes) (omega arith)
drop-drop [] (suc m) zero = sym (drop-nil_of_le [] (suc m + 0) (omega arith))
drop-drop [] (suc m) (suc n) = sym (drop-nil_of_le [] (suc m + suc n) (omega arith))
drop-drop (b ∷ bs) (suc m) n =
    let e : suc m + n ≡ suc (m + n) = omega arith in rw e (drop-drop bs m n)

byte_or-take :
    (bytes : List ℕ) (n i old : ℕ)
    → i < n
    → byte_or (drop i (take n bytes)) old ≡ byte_or (drop i bytes) old
byte_or-take [] zero i old h = absurd (omega arith)
byte_or-take [] (suc n) zero old h = refl
byte_or-take [] (suc n) (suc i) old h = refl
byte_or-take (b ∷ bs) zero i old h = absurd (omega arith)
byte_or-take (b ∷ bs) (suc n) zero old h = refl
byte_or-take (b ∷ bs) (suc n) (suc i) old h = byte_or-take bs n i old (omega arith)

-- Writing the first `n` bytes and then the others writes them all.
pub store-store :
    (ram : Ram) (at n : ℕ) (bytes : List ℕ) (x : ℕ)
    → n ≤ length bytes
    → store (store ram at (take n bytes)) (at + n) (drop n bytes) x ≡ store ram at bytes x
unfolding store
store-store ram at n bytes x h =
    let size = length-take n bytes in
    elim (Bool-cases (ltb x (at + n))) [
      | inl low ↦ elim (Bool-cases (ltb x at)) [
        | inl before ↦ rw (low, before)
        | inr within ↦ rw (low, within) (byte_or-take bytes n (x - at) (ram x) (ground arith))
      ]
      | inr high ↦
          let place : n + (x - (at + n)) ≡ x - at = ground arith in
          let past : ltb x at ≡ false = ground arith in
          let kept : store ram at (take n bytes) x ≡ ram x =
            store_after ram at (take n bytes) x (ground arith) in
          rw (high, past, drop-drop bytes n (x - (at + n)), place)
            (ap (byte_or (drop (x - at) bytes)) (rw past at kept))
    ]

pub store-cong :
    (ram ram' : Ram) (at : ℕ) (bytes : List ℕ) (x : ℕ)
    → ram x ≡ ram' x
    → store ram at bytes x ≡ store ram' at bytes x
unfolding store
store-cong ram ram' at bytes x e = rw e

pub load-cong :
    (n : ℕ) (ram ram' : Ram) (at at' : ℕ)
    → ((i : ℕ) → i < n → ram (at + i) ≡ ram' (at' + i))
    → load ram at n ≡ load ram' at' n
unfolding load
load-cong zero ram ram' at at' h = refl
load-cong (suc n) ram ram' at at' h =
    let first : ram at ≡ ram' at' =
      ap ram (omega arith) ∙ h 0 (omega arith) ∙ ap ram' (omega arith) in
    ap₂ (λ b bs. b ∷ bs) first
      (load-cong n ram ram' (at + 1) (at' + 1)
        (λ i lt. ap ram (omega arith) ∙ h (i + 1) (omega arith) ∙ ap ram' (omega arith)))

pub load-append :
    (m : ℕ) (ram : Ram) (at n : ℕ) → load ram at m ++ load ram (at + m) n ≡ load ram at (m + n)
unfolding load
load-append zero ram at n = ap₂ (load ram) (omega arith) (omega arith)
load-append (suc m) ram at n =
    let e : suc m + n ≡ suc (m + n) = omega arith in
    let place : at + suc m ≡ at + 1 + m = omega arith in
    rw (e, place) (ap (◌∷◌ (ram at)) (load-append m ram (at + 1) n))
