-- ===== src/Base/Held.antt =====
-- Bytes that memory holds from an address on, and the words that are read there.
use Prim.Native.Nat.{ℕ, zero, suc, ◌+◌, ◌^◌, ◌<◌}
use mathlib.Core.Path.{◌≡◌, refl, sym, ap, ap₂, subst, ◌∙◌}
use mathlib.Core.Bool.{Bool, true, ◌&&◌}
use mathlib.Core.Option.{some}
use mathlib.Core.List.{List, [], ◌∷◌, ◌++◌}
use native.Mathlib.Omega.{arith}
use ftl.Base.Tests.{◌==◌}
use ftl.Base.Lists.{length, get_elem?}
use ftl.Base.Bytes.{
  to_le_bytes, from_le_bytes, length-to_le_bytes, from_le_bytes-to_le_bytes, write_fields,
  field_offset,
}
use ftl.Base.Ram.{Ram, load}

-- The number in the `k` bytes at `at`.
abbrev pub word : Ram → ℕ → ℕ → ℕ
word ram at k = from_le_bytes (load ram at k)

abbrev pub Holds : Ram → ℕ → List ℕ → Type 0
Holds ram at [] = Unit {0}
Holds ram at (b ∷ bs) = (ram at ≡ b) × Holds ram (at + 1) bs

-- As a test.
unfoldable pub holds : Ram → ℕ → List ℕ → Bool
holds ram at [] = true
holds ram at (b ∷ bs) = ram at == b && holds ram (at + 1) bs

pub holds-Holds : (ram : Ram) (at : ℕ) (bs : List ℕ) → holds ram at bs ≡ true → Holds ram at bs
unfolding holds
holds-Holds ram at [] h = tt
holds-Holds ram at (b ∷ bs) h = ground (arith, holds-Holds ram (at + 1) bs)

pub Holds-append :
    (ram : Ram) (at : ℕ) (xs ys : List ℕ)
    → Holds ram at (xs ++ ys)
    → Holds ram at xs × Holds ram (at + length xs) ys
Holds-append ram at [] ys h = (tt, subst (λ (x : ℕ). Holds ram x ys) (omega arith) h)
Holds-append ram at (x ∷ xs) ys (e, h) =
    let (front, back) = Holds-append ram (at + 1) xs ys h in
    ((e, front), subst (λ (a : ℕ). Holds ram a ys) (omega arith) back)

pub load-Holds : (ram : Ram) (at : ℕ) (bs : List ℕ) → Holds ram at bs → load ram at (length bs) ≡ bs
unfolding load
load-Holds ram at [] h = refl
load-Holds ram at (b ∷ bs) (e, h) = ap₂ ◌∷◌ e (load-Holds ram (at + 1) bs h)

pub word-Holds :
    (ram : Ram) (at k n : ℕ) → Holds ram at (to_le_bytes k n) → n < 256 ^ k → word ram at k ≡ n
word-Holds ram at k n h small =
    ap (λ (j : ℕ). from_le_bytes (load ram at j)) (sym (length-to_le_bytes k n))
    ∙ ap from_le_bytes (load-Holds ram at (to_le_bytes k n) h)
    ∙ from_le_bytes-to_le_bytes k n small

-- The fields of a structure in memory.
pub field-Holds :
    (ram : Ram) (fs : List (ℕ × ℕ)) (at i k n : ℕ)
    → Holds ram at (write_fields fs)
    → get_elem? fs i ≡ some (k, n)
    → n < 256 ^ k
    → word ram (at + field_offset fs i) k ≡ n
unfolding write_fields
field-Holds ram [] at i k n h e small = absurd (cc)
field-Holds ram ((j, m) ∷ fs) at zero k n h e small =
    let (front, _) = Holds-append ram at (to_le_bytes j m) (write_fields fs) h in
    let width : j ≡ k = cc in
    let value : m ≡ n = cc in
    let here : at + 0 ≡ at = omega arith in
    ap₂ (λ (a b : ℕ). word ram a b) here (sym width)
    ∙ word-Holds ram at j m front (rw (width, value) small)
    ∙ value
field-Holds ram ((j, m) ∷ fs) at (suc i) k n h e small =
    let (_, back) = Holds-append ram at (to_le_bytes j m) (write_fields fs) h in
    let place : at + (j + field_offset fs i) ≡ at + length (to_le_bytes j m) + field_offset fs i =
      omega (arith, length-to_le_bytes j m) in
    ap (λ (a : ℕ). word ram a k) place
    ∙ field-Holds ram fs (at + length (to_le_bytes j m)) i k n back e small
