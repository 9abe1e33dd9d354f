-- ===== src/Align/Rounding.antt =====
-- `align_up` and `align_down` as roundings: the nearest multiples of the alignment.
use native.Mathlib.Nat.{one-le-pow, mod-lt, mul-mod_left, div-add-mod'}
use ftl.Base.{ℕ, ◌+◌, ◌-◌, ◌*◌, ◌/◌, ◌%◌, ◌^◌, ◌≤◌, ◌<◌, ◌≡◌, arith, done}
use ftl.Base.Word.{IsUsize}
use ftl.Align.{align_down, align_up}
use ftl.Align.Laws.{align_down-pow, align_up-pow}

module _ (p : ℕ) (pos : 0 < p) where
  -- A multiple below the next multiple is at most the one before.
  multiple_le : (a b : ℕ) → a % p ≡ 0 → a < b / p * p + p → a ≤ b / p * p
  multiple_le a b h lt = grind (arith, div-add-mod' a p)

  pub floor_bounds : (v : ℕ) → (v / p * p ≤ v) × (v < v / p * p + p)
  floor_bounds v = omega (arith, div-add-mod' v p, mod-lt v pos)

  pub floor_greatest : (v m : ℕ) → m ≤ v → m % p ≡ 0 → m ≤ v / p * p
  floor_greatest v m h e = multiple_le m v e (omega (arith, floor_bounds v))

  pub ceiling_bounds : (v : ℕ) → (v ≤ (v + p - 1) / p * p) × ((v + p - 1) / p * p < v + p)
  ceiling_bounds v = omega (arith, floor_bounds (v + p - 1))

  pub ceiling_least : (v m : ℕ) → v ≤ m → m % p ≡ 0 → (v + p - 1) / p * p ≤ m
  ceiling_least v m h e =
      let own : m / p * p ≡ m = omega (arith, div-add-mod' m p) in
      let below = (floor_bounds (v + p - 1)).0 in
      rw own at (
        multiple_le ((v + p - 1) / p * p) m (mul-mod_left ((v + p - 1) / p) p)
          (rw own (omega arith)))

-- `align_up` returns, where value + align is a `usize`, the least multiple of the alignment that is
-- not below the value; it does not panic.
align_up_least :
    (v k : ℕ)
    → IsUsize (v + 2 ^ k)
    → k < 64
    → (r : ℕ) × (align_up v (2 ^ k) ≡ done r)
      × (v ≤ r)
      × (r % 2 ^ k ≡ 0)
      × ((m : ℕ) → v ≤ m → m % 2 ^ k ≡ 0 → r ≤ m)
align_up_least v k hv hk =
    let pos = one-le-pow k 2 (omega arith) in
    (
      (v + 2 ^ k - 1) / 2 ^ k * 2 ^ k,
      align_up-pow v k hv hk,
      (ceiling_bounds (2 ^ k) pos v).0,
      mul-mod_left ((v + 2 ^ k - 1) / 2 ^ k) (2 ^ k),
      ceiling_least (2 ^ k) pos v,
    )

-- `align_down` returns the greatest multiple of the alignment that is not above the value; it does
-- not panic.
align_down_greatest :
    (v k : ℕ)
    → IsUsize v
    → k < 64
    → (r : ℕ) × (align_down v (2 ^ k) ≡ done r)
      × (r ≤ v)
      × (r % 2 ^ k ≡ 0)
      × ((m : ℕ) → m ≤ v → m % 2 ^ k ≡ 0 → m ≤ r)
align_down_greatest v k hv hk =
    let pos = one-le-pow k 2 (omega arith) in
    (
      v / 2 ^ k * 2 ^ k,
      align_down-pow v k hv hk,
      (floor_bounds (2 ^ k) pos v).0,
      mul-mod_left (v / 2 ^ k) (2 ^ k),
      floor_greatest (2 ^ k) pos v,
    )
