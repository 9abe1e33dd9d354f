-- ===== src/ByteSize.antt =====
-- libs/rust/ftl_utils/src/formatter.rs: a size in bytes, printed in the unit that suits it.
use native.Mathlib.Nat.{div-div-eq-div-mul, pow-suc}
use ftl.Base.{
  ℕ, zero, suc, ◌+◌, ◌/◌, ◌^◌, ◌≤◌, ◌<◌, ◌≡◌, ◌⊎◌, ◌∙◌, sym, ap, inl, inr, refl, arith, leb, true,
  false, Bool-cases, List, [], ◌∷◌, Option, some, get_elem?,
}

pub data ByteUnit : Type 0 where
  b kib mib gib tib : ByteUnit

abbrev pub units : List ByteUnit
units = b ∷ kib ∷ mib ∷ gib ∷ tib ∷ []

-- The loop of `fmt`, with `n` units left behind `units[i]`: the value and the index of its unit.
unfoldable pub scale : ℕ → ℕ → ℕ → ℕ × ℕ
scale zero value i = (value, i)
scale (suc n) value i = elim (leb 1024 value) [
  | true ↦ scale n (value / 1024) (i + 1)
  | false ↦ (value, i)
]

-- The number that is printed, and its unit.
unfoldable pub fmt : ℕ → ℕ × Option ByteUnit
unfolding scale
fmt size = let (value, i) = scale 4 size 0 in (value, get_elem? units i)

-- The value is the size in the unit, rounded down; it is below 1024 but in the last unit, and is not 0
-- but in the first.
pub record IsScaled (size value i : ℕ) : Type 0 where
  pub in_units : i ≤ 4
  pub rounded : value ≡ size / 1024 ^ i
  pub below : (value < 1024) ⊎ (i ≡ 4)
  pub positive : (i ≡ 0) ⊎ (1 ≤ value)

scale-IsScaled :
    (size n value i : ℕ)
    → n + i ≡ 4
    → value ≡ size / 1024 ^ i
    → (i ≡ 0) ⊎ (1 ≤ value)
    → IsScaled size (scale n value i).0 (scale n value i).1
unfolding scale
scale-IsScaled size zero value i left e p = record {
  in_units = omega arith;
  rounded = e;
  below = inr (omega arith);
  positive = p;
}
scale-IsScaled size (suc n) value i left e p = elim (Bool-cases (leb 1024 value)) [
  | inl large ↦
      let step : suc i ≡ i + 1 = omega arith in
      let next : value / 1024 ≡ size / 1024 ^ (i + 1) =
        ap (λ (v : ℕ). v / 1024) e
        ∙ div-div-eq-div-mul size (1024 ^ i) 1024
        ∙ ap (λ (p : ℕ). size / p) (sym (pow-suc 1024 i))
        ∙ ap (λ (j : ℕ). size / 1024 ^ j) step in
      rw (scale, large)
        (scale-IsScaled size n (value / 1024) (i + 1) (omega arith) next (inr (ground arith)))
  | inr small ↦
      rw (scale, small)
        (record { in_units = omega arith; rounded = e; below = inl (ground arith); positive = p })
]

unit_at : (i : ℕ) → i ≤ 4 → (unit : ByteUnit) × (get_elem? units i ≡ some unit)
unit_at zero h = (b, refl)
unit_at (suc zero) h = (kib, refl)
unit_at (suc (suc zero)) h = (mib, refl)
unit_at (suc (suc (suc zero))) h = (gib, refl)
unit_at (suc (suc (suc (suc zero)))) h = (tib, refl)
unit_at (suc (suc (suc (suc (suc i))))) h = absurd (omega arith)

-- `ByteSize` prints a size in one of its five units, rounded down: below 1024 of the unit, or in the
-- last one, and never as 0 of a unit but the first.
pub fmt-IsScaled :
    (size : ℕ)
    → (value i : ℕ) × (unit : ByteUnit) × (fmt size ≡ (value, some unit))
      × (get_elem? units i ≡ some unit)
      × IsScaled size value i
unfolding fmt
fmt-IsScaled size =
    let scaled = scale-IsScaled size 4 size 0 refl (omega arith) (inl refl) in
    let (unit, e) = unit_at (scale 4 size 0).1 scaled.in_units in
    ((scale 4 size 0).0, (scale 4 size 0).1, unit, ap (λ u. ((scale 4 size 0).0, u)) e, e, scaled)
