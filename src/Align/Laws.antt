-- ===== src/Align/Laws.antt =====
-- The bit masks of alignment.rs as division: what `align_down`, `align_up` and `is_aligned` compute.
use native.Mathlib.Nat.{one-le-pow}
use ftl.Base.{
  ℕ, zero, suc, ◌+◌, ◌-◌, ◌*◌, ◌/◌, ◌%◌, ◌^◌, ◌≤◌, ◌<◌, ◌==◌, ◌≡◌, true, arith, done, ap,
}
use ftl.Base.Bits.{bit_and_mask, bit_and_clear, pow-add}
use ftl.Base.Word.{usize_mod, IsUsize, complement}
use ftl.Align.{power_below, is_power_of_two, align_down, align_up, is_aligned}

power_below-pow : (n k : ℕ) → k < n → power_below n (2 ^ k) ≡ true
unfolding power_below
power_below-pow zero k h = absurd (omega arith)
power_below-pow (suc n) k h = ground (arith, power_below-pow n k)

pub is_power_of_two-pow : (k : ℕ) → k < 64 → is_power_of_two (2 ^ k) ≡ true
unfolding is_power_of_two
is_power_of_two-pow k h = power_below-pow 64 k h

pred-mul : (a b : ℕ) → 1 ≤ a → (a - 1) * b + b ≡ a * b
pred-mul zero b h = absurd (omega arith)
pred-mul (suc a) b h = let e : suc a - 1 ≡ a = omega arith in rw e (omega arith)

whole_range : (k : ℕ) → k < 64 → usize_mod ≡ 2 ^ (64 - k) * 2 ^ k
whole_range k h =
    let e : 64 - k + k ≡ 64 = omega arith in
    omega (arith, pow-add (64 - k) k, ap (λ (t : ℕ). 2 ^ t) e)

clear_mask : (k : ℕ) → k < 64 → complement (2 ^ k - 1) ≡ (2 ^ (64 - k) - 1) * 2 ^ k
clear_mask k h = omega (
  arith,
  one-le-pow k 2 (omega arith),
  whole_range k h,
  pred-mul (2 ^ (64 - k)) (2 ^ k) (one-le-pow (64 - k) 2 (omega arith)),
)

pub align_down-pow :
    (v k : ℕ) → IsUsize v → k < 64 → align_down v (2 ^ k) ≡ done (v / 2 ^ k * 2 ^ k)
unfolding align_down
align_down-pow v k hv h = ground (
  arith,
  one-le-pow k 2,
  is_power_of_two-pow k h,
  clear_mask k h,
  whole_range k h,
  bit_and_clear k (64 - k) v,
)

pub is_aligned-pow : (v k : ℕ) → k < 64 → is_aligned v (2 ^ k) ≡ done (v % 2 ^ k == 0)
unfolding is_aligned
is_aligned-pow v k h = ground (arith, is_power_of_two-pow k h, bit_and_mask k v)

pub align_up-pow :
    (v k : ℕ)
    → IsUsize (v + 2 ^ k)
    → k < 64
    → align_up v (2 ^ k) ≡ done ((v + 2 ^ k - 1) / 2 ^ k * 2 ^ k)
unfolding align_up
align_up-pow v k hv h =
    ground (arith, one-le-pow k 2, is_power_of_two-pow k h, align_down-pow (v + 2 ^ k - 1) k)
