-- ===== src/Initfs/Hex.antt =====
-- `parse_hex`: eight digits make a 32-bit number.
use native.Mathlib.Nat.{div-div-eq-div-mul, div-le_self, pow-suc, pow-le-pow_right}
use ftl.Base.{
  Bool, true, false, subst, ◌∙◌, ℕ, zero, suc, ◌+◌, ◌-◌, ◌*◌, ◌/◌, ◌%◌, ◌^◌, ◌≤◌, ◌<◌, ◌≡◌, ◌⊎◌,
  inl, inr, refl, arith, Option, none, some, List, [], ◌∷◌, length, Option-cases, Exec, done, ltb,
  if◌then◌else◌,
}
use ftl.Initfs.{hex_digit, hex_loop, parse_hex}

hex_digit-bound : (byte d : ℕ) → hex_digit byte ≡ some d → d < 16
unfolding hex_digit
hex_digit-bound byte d e = ground arith

-- The loop gives up, or it ends in a number of at most `m` digits.
abbrev Ends : Exec (Option ℕ) → ℕ → Type 0
Ends run m = (run ≡ done none) ⊎ ((n : ℕ) × (run ≡ done (some n)) × (n < 16 ^ m))

hex_loop-step :
    (byte d value : ℕ) (rest : List ℕ)
    → hex_digit byte ≡ some d
    → value * 16 + d < 2 ^ 64
    → hex_loop value (byte ∷ rest) ≡ hex_loop (value * 16 + d) rest
unfolding hex_loop
hex_loop-step byte d value rest e fits = rw (hex_loop, e) (ground arith)

hex_loop-digit :
    (byte d value k : ℕ) (rest : List ℕ)
    → hex_digit byte ≡ some d
    → value < 16 ^ k
    → suc k ≤ 15
    → (hex_loop value (byte ∷ rest) ≡ hex_loop (value * 16 + d) rest)
      × (value * 16 + d < 16 ^ suc k)
hex_loop-digit byte d value k rest e h small =
    let digit = hex_digit-bound byte d e in
    let power = pow-suc 16 k in
    let high = pow-le-pow_right {n = 16} (omega arith) small in
    (hex_loop-step byte d value rest e (omega arith), omega arith)

hex_loop-Ends :
    (s : List ℕ) (value k m : ℕ)
    → value < 16 ^ k
    → k + length s ≡ m
    → m ≤ 15
    → Ends (hex_loop value s) m
unfolding hex_loop
hex_loop-Ends [] value k m h e small =
    let same : k ≡ m = omega arith in inr (value, refl, subst (λ t. value < 16 ^ t) same h)
hex_loop-Ends (byte ∷ rest) value k m h len small = elim (Option-cases (hex_digit byte)) [
  | inl e ↦ inl (rw (hex_loop, e) refl)
  | inr (d, e) ↦
      let (run, bound) = hex_loop-digit byte d value k rest e h (omega arith) in
      rw (run) (hex_loop-Ends rest (value * 16 + d) (suc k) m bound (omega arith) small)
]

-- A field of eight bytes is read without an overflow, and what it holds is below 2 ^ 32.
pub parse_hex-bound :
    (s : List ℕ)
    → length s ≡ 8
    → (parse_hex s ≡ done none) ⊎ ((n : ℕ) × (parse_hex s ≡ done (some n)) × (n < 2 ^ 32))
unfolding parse_hex
parse_hex-bound s e = hex_loop-Ends s 0 0 8 (omega arith) (omega arith) (omega arith)

-- The digits that the format writes, either case of the letters.
unfoldable pub digit_char : Bool → ℕ → ℕ
digit_char upper d = if ltb d 10 then b'0' + d else (if upper then b'A' else b'a') + (d - 10)

-- `n` in `k` digits.
unfoldable pub to_hex : Bool → ℕ → ℕ → List ℕ
unfolding digit_char
to_hex upper zero n = []
to_hex upper (suc k) n = digit_char upper (n / 16 ^ k % 16) ∷ to_hex upper k n

hex_digit-digit_char : (upper : Bool) (d : ℕ) → d < 16 → hex_digit (digit_char upper d) ≡ some d
unfolding hex_digit digit_char
hex_digit-digit_char true d h = ground arith
hex_digit-digit_char false d h = ground arith

digit_step : (k n : ℕ) → n / 16 ^ suc k * 16 + n / 16 ^ k % 16 ≡ n / 16 ^ k
digit_step k n =
    let split = div-div-eq-div-mul n (16 ^ k) 16 in rw (pow-suc 16 k) (omega (arith, split))

hex_loop-to_hex :
    (upper : Bool) (k n : ℕ) → n < 2 ^ 60 → hex_loop (n / 16 ^ k) (to_hex upper k n) ≡ done (some n)
unfolding hex_loop to_hex
hex_loop-to_hex upper zero n h = ground arith
hex_loop-to_hex upper (suc k) n h =
    let digit = hex_digit-digit_char upper (n / 16 ^ k % 16) (omega arith) in
    let step = digit_step k n in
    let small = div-le_self n (16 ^ k) in
    hex_loop-step (digit_char upper (n / 16 ^ k % 16)) (n / 16 ^ k % 16) (n / 16 ^ suc k)
      (to_hex upper k n) digit (omega arith)
    ∙ rw (step) (hex_loop-to_hex upper k n h)

-- A number below 2 ^ 32, written in eight hexadecimal digits of either case, is read back.
pub parse_hex-to_hex :
    (upper : Bool) (n : ℕ) → n < 2 ^ 32 → parse_hex (to_hex upper 8 n) ≡ done (some n)
unfolding parse_hex
parse_hex-to_hex upper n h =
    let top : n / 16 ^ 8 ≡ 0 = omega arith in
    subst (λ v. hex_loop v (to_hex upper 8 n) ≡ done (some n)) top
      (hex_loop-to_hex upper 8 n (omega arith))
