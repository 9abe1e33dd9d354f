-- ===== src/Align.antt =====
-- libs/rust/ftl_utils/src/alignment.rs: rounding addresses to a power of two, in the debug build,
-- where the assertions and the overflow checks are on.
pub mod Laws
pub mod Rounding
use ftl.Base.{ℕ, zero, suc, ◌-◌, ◌^◌, ◌==◌, Bool, false, ◌||◌, not, bit_and}
use ftl.Base.{Exec, done, ◌>>=◌, ◌>>◌, assert}
use ftl.Base.Word.{add, sub, complement}

-- One of 2 ^ 0, ..., 2 ^ (k - 1).
power_below : ℕ → ℕ → Bool
power_below zero a = false
power_below (suc k) a = a == 2 ^ k || power_below k a

-- `usize::is_power_of_two`
unfoldable pub is_power_of_two : ℕ → Bool
unfolding power_below
is_power_of_two a = power_below 64 a

unfoldable pub align_down : ℕ → ℕ → Exec ℕ
unfolding is_power_of_two
align_down value align = do
  assert (is_power_of_two align)
  assert (not (align == 0))
  done (bit_and value (complement (align - 1)))

unfoldable pub align_up : ℕ → ℕ → Exec ℕ
unfolding align_down
align_up value align = do
  assert (is_power_of_two align)
  s ← add value align
  t ← sub s 1
  align_down t align

unfoldable pub is_aligned : ℕ → ℕ → Exec Bool
unfolding is_power_of_two
is_aligned value align = do assert (is_power_of_two align); done (bit_and value (align - 1) == 0)
