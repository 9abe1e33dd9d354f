-- ===== src/Base/Bits.antt =====
-- `&` and `|` of the native numbers as arithmetic: the lowest digit, fields that are kept apart by a
-- power of two, and low masks.
use Prim.Native.Nat.{
  ℕ, zero, suc, ◌+◌, ◌-◌, ◌*◌, ◌/◌, ◌%◌, ◌^◌, ◌≤◌, ◌<◌, min, max, bit_and, bit_or, digits, bitwise,
  bit_and-bitwise, bit_or-bitwise,
}
use native.Mathlib.Nat.{
  add-zero, add-suc, le_refl, pow-suc, one-le-pow, mod-lt, div-add-mod', div-lt_iff_lt-mul,
}
use mathlib.Core.Path.{◌≡◌, ◌∙◌, refl, ap}
use native.Mathlib.Decide.{dec_le}
use native.Mathlib.Omega.{arith}

-- Numbers by their binary digits: past the value of the first operand, fuel changes nothing.
module _ (rest : ℕ → ℕ) (digit : ℕ → ℕ → ℕ) where
  one_more :
      (fuel x y : ℕ) → x ≤ fuel → digits rest digit (suc fuel) x y ≡ digits rest digit fuel x y
  one_more zero zero y h = refl
  one_more zero (suc x) y h = absurd (omega arith)
  one_more (suc fuel) zero y h = refl
  one_more (suc fuel) (suc x) y h =
      ap (λ (t : ℕ). t * 2 + digit (suc x % 2) (y % 2))
        (one_more fuel (suc x / 2) (y / 2) (omega arith))

  enough : (fuel x y : ℕ) → x ≤ fuel → digits rest digit fuel x y ≡ digits rest digit x x y
  enough zero x y h = let none : x ≡ 0 = omega arith in rw none refl
  enough (suc fuel) x y h = elim (dec_le x fuel) [
    | yes small ↦ one_more fuel x y small ∙ enough fuel x y small
    | no big ↦ let all : x ≡ suc fuel = omega arith in rw all refl
  ]

  lowest_digit :
      (x y : ℕ)
      → bitwise rest digit (suc x) y
        ≡ bitwise rest digit (suc x / 2) (y / 2) * 2 + digit (suc x % 2) (y % 2)
  lowest_digit x y =
      ap (λ (t : ℕ). t * 2 + digit (suc x % 2) (y % 2)) (enough x (suc x / 2) (y / 2) (omega arith))

pub zero-bit_and : (b : ℕ) → bit_and 0 b ≡ 0
zero-bit_and b = bit_and-bitwise 0 b

pub zero-bit_or : (b : ℕ) → bit_or 0 b ≡ b
zero-bit_or b = bit_or-bitwise 0 b

pub bit_and_step : (x y : ℕ) → bit_and x y ≡ bit_and (x / 2) (y / 2) * 2 + min (x % 2) (y % 2)
bit_and_step zero y = omega (arith, zero-bit_and y, zero-bit_and (y / 2))
bit_and_step (suc x) y = simp bit_and-bitwise (lowest_digit (λ _. 0) min x y)

pub bit_or_step : (x y : ℕ) → bit_or x y ≡ bit_or (x / 2) (y / 2) * 2 + max (x % 2) (y % 2)
bit_or_step zero y = omega (arith, zero-bit_or y, zero-bit_or (y / 2))
bit_or_step (suc x) y = simp bit_or-bitwise (lowest_digit (λ t. t) max x y)

-- Strong induction by a bound.
bit_and-zero_below : (n a : ℕ) → a ≤ n → bit_and a 0 ≡ 0
bit_and-zero_below n zero h = zero-bit_and 0
bit_and-zero_below zero (suc a) h = absurd (omega arith)
bit_and-zero_below (suc n) (suc a) h =
    omega (arith, bit_and_step (suc a) 0, bit_and-zero_below n (suc a / 2) (omega arith))

pub bit_and-zero : (a : ℕ) → bit_and a 0 ≡ 0
bit_and-zero a = bit_and-zero_below a a (le_refl a)

bit_or-zero_below : (n a : ℕ) → a ≤ n → bit_or a 0 ≡ a
bit_or-zero_below n zero h = zero-bit_or 0
bit_or-zero_below zero (suc a) h = absurd (omega arith)
bit_or-zero_below (suc n) (suc a) h =
    omega (arith, bit_or_step (suc a) 0, bit_or-zero_below n (suc a / 2) (omega arith))

pub bit_or-zero : (a : ℕ) → bit_or a 0 ≡ a
bit_or-zero a = bit_or-zero_below a a (le_refl a)

mul-pow-suc : (q k : ℕ) → q * 2 ^ suc k ≡ 2 * (q * 2 ^ k)
mul-pow-suc q k = omega (arith, ap (λ (t : ℕ). q * t) (pow-suc 2 k))

-- High and low fields are combined apart.
pub bit_and_fields :
    (k q m r s : ℕ)
    → r < 2 ^ k
    → s < 2 ^ k
    → bit_and (q * 2 ^ k + r) (m * 2 ^ k + s) ≡ bit_and q m * 2 ^ k + bit_and r s
bit_and_fields zero q m r s hr hs =
    let er : r ≡ 0 = omega arith in
    let es : s ≡ 0 = omega arith in ground (arith, er, es, zero-bit_and 0)
bit_and_fields (suc k) q m r s hr hs = ground (
  arith,
  pow-suc 2 k,
  mul-pow-suc q k,
  mul-pow-suc m k,
  mul-pow-suc (bit_and q m) k,
  bit_and_step r s,
  bit_and_step (q * 2 ^ suc k + r) (m * 2 ^ suc k + s),
  bit_and_fields k q m (r / 2) (s / 2),
)

pub bit_or_fields :
    (k q m r s : ℕ)
    → r < 2 ^ k
    → s < 2 ^ k
    → bit_or (q * 2 ^ k + r) (m * 2 ^ k + s) ≡ bit_or q m * 2 ^ k + bit_or r s
bit_or_fields zero q m r s hr hs =
    let er : r ≡ 0 = omega arith in
    let es : s ≡ 0 = omega arith in ground (arith, er, es, zero-bit_or 0)
bit_or_fields (suc k) q m r s hr hs = ground (
  arith,
  pow-suc 2 k,
  mul-pow-suc q k,
  mul-pow-suc m k,
  mul-pow-suc (bit_or q m) k,
  bit_or_step r s,
  bit_or_step (q * 2 ^ suc k + r) (m * 2 ^ suc k + s),
  bit_or_fields k q m (r / 2) (s / 2),
)

bit_and-ones : (k r : ℕ) → r < 2 ^ k → bit_and r (2 ^ k - 1) ≡ r
bit_and-ones zero r h = let e : r ≡ 0 = omega arith in rw e (zero-bit_and 0)
bit_and-ones (suc k) r h =
    ground
      (arith, pow-suc 2 k, one-le-pow k 2, bit_and_step r (2 ^ suc k - 1), bit_and-ones k (r / 2))

-- A mask of `k` low ones takes the remainder.
pub bit_and_mask : (k a : ℕ) → bit_and a (2 ^ k - 1) ≡ a % 2 ^ k
bit_and_mask k a = ground (
  arith,
  one-le-pow k 2,
  mod-lt a {m = 2 ^ k},
  div-add-mod' a (2 ^ k),
  bit_and-zero (a / 2 ^ k),
  bit_and_fields k (a / 2 ^ k) 0 (a % 2 ^ k) (2 ^ k - 1),
  bit_and-ones k (a % 2 ^ k),
)

-- A mask that is all ones but for `k` low zeroes clears the remainder.
pub bit_and_clear :
    (k j a : ℕ) → a < 2 ^ j * 2 ^ k → bit_and a ((2 ^ j - 1) * 2 ^ k) ≡ a / 2 ^ k * 2 ^ k
bit_and_clear k j a h = ground (
  arith,
  one-le-pow k 2,
  mod-lt a {m = 2 ^ k},
  div-add-mod' a (2 ^ k),
  bit_and-zero (a % 2 ^ k),
  bit_and_fields k (a / 2 ^ k) (2 ^ j - 1) (a % 2 ^ k) 0,
  bit_and-ones j (a / 2 ^ k) ((div-lt_iff_lt-mul (one-le-pow k 2 (omega arith))).1 h),
)

pub pow-add : (j k : ℕ) → 2 ^ (j + k) ≡ 2 ^ j * 2 ^ k
pow-add j zero = ground (arith, add-zero j)
pow-add j (suc k) = omega (
  arith,
  ap (λ (t : ℕ). 2 ^ t) (add-suc j k),
  pow-suc 2 (j + k),
  pow-suc 2 k,
  pow-add j k,
  ap (λ (t : ℕ). 2 ^ j * t) (pow-suc 2 k),
)

-- A low field joined with a high one.
pub bit_or_high : (k r m : ℕ) → r < 2 ^ k → bit_or r (m * 2 ^ k) ≡ m * 2 ^ k + r
bit_or_high k r m h =
    ground (arith, one-le-pow k 2, bit_or_fields k 0 m r 0, zero-bit_or m, bit_or-zero r)

pub bit_or_low : (k q s : ℕ) → s < 2 ^ k → bit_or (q * 2 ^ k) s ≡ q * 2 ^ k + s
bit_or_low k q s h =
    ground (arith, one-le-pow k 2, bit_or_fields k q 0 0 s, bit_or-zero q, zero-bit_or s)
