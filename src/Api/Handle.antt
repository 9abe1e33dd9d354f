-- ===== src/Api/Handle.antt =====
-- libs/rust/ftl_api/src/handle.rs: the rights of a handle and the types that it names.
use ftl.Base.{
  ℕ, zero, suc, ◌+◌, ◌*◌, ◌/◌, ◌%◌, ◌^◌, ◌≤◌, ◌≡◌, ◌↔◌, arith, min, max, ◌==◌, Bool, ◌&&◌, bit_and,
  bit_or,
}
use ftl.Base.Bits.{bit_and_step, bit_or_step, bit_and-zero}

-- A type is named by its `TypeId`.
pub record Handle : Type 0 where
  pub raw : ℕ
  pub type_id : ℕ
  pub right : ℕ

abbrev pub none : ℕ
none = 0

abbrev pub read : ℕ
read = 2 ^ 0

abbrev pub write : ℕ
write = 2 ^ 1

abbrev pub map : ℕ
map = 2 ^ 2

unfoldable pub contains : ℕ → ℕ → Bool
contains right other = bit_and right other == other

-- `or`, and `|`
unfoldable pub or : ℕ → ℕ → ℕ
or right other = bit_or right other

unfoldable pub is_type : Handle → ℕ → Bool
is_type h type_id = h.type_id == type_id

unfoldable pub authorize : Handle → ℕ → Bool
unfolding contains
authorize h action = contains h.right action

-- A set of bits holds two sets together when it holds each.
holds_both :
    (n h a b : ℕ)
    → a ≤ n
    → b ≤ n
    → (bit_and h (bit_or a b) ≡ bit_or a b) ↔ ((bit_and h a ≡ a) × (bit_and h b ≡ b))
holds_both zero h a b ha hb =
    let ea : a ≡ 0 = omega arith in
    let eb : b ≡ 0 = omega arith in
    rw (ea, eb) ((λ _. (bit_and-zero h, bit_and-zero h)), (λ _. bit_and-zero h))
holds_both (suc n) h a b ha hb =
    let half = holds_both n (h / 2) (a / 2) (b / 2) (omega arith) (omega arith) in
    let union = bit_or_step a b in
    let left = bit_and_step h a in
    let right = bit_and_step h b in
    let upper : bit_or a b / 2 ≡ bit_or (a / 2) (b / 2) = omega arith in
    let lower : bit_or a b % 2 ≡ max (a % 2) (b % 2) = omega arith in
    let both : bit_and h (bit_or a b)
        ≡ bit_and (h / 2) (bit_or (a / 2) (b / 2)) * 2 + min (h % 2) (max (a % 2) (b % 2)) =
      rw (← upper, ← lower) (bit_and_step h (bit_or a b)) in
    (
      λ e. let (p, q) = half.0 (omega arith) in (omega arith, omega arith),
      λ (p, q). let e = half.1 (omega arith, omega arith) in omega arith,
    )

-- A handle is authorised for two actions together exactly when it is for each of them.
authorize-or : (h : Handle) (a b : ℕ) → authorize h (or a b) ≡ (authorize h a && authorize h b)
unfolding authorize contains or
authorize-or h a b = ground (arith, holds_both (a + b) h.right a b)
