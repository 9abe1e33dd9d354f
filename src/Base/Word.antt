-- ===== src/Base/Word.antt =====
-- `usize` and `u64` of the 64-bit target: numbers below 2 ^ 64.
use mathlib.Core.Path.{◌≡◌}
use native.Mathlib.Omega.{arith}
use Prim.Native.Nat.{ℕ, ◌+◌, ◌-◌, ◌*◌, ◌^◌, ◌≤◌, ◌<◌}
use mathlib.Core.Option.{Option, none, some}
use ftl.Base.Tests.{ltb, leb, if◌then◌else◌}
use ftl.Base.Outcome.{Exec, done, panic}

abbrev pub usize_mod : ℕ
usize_mod = 2 ^ 64

abbrev pub IsUsize : ℕ → Type 0
IsUsize a = a < usize_mod

abbrev pub checked_add : ℕ → ℕ → Option ℕ
checked_add a b = if ltb (a + b) usize_mod then some (a + b) else none

abbrev pub checked_sub : ℕ → ℕ → Option ℕ
checked_sub a b = if leb b a then some (a - b) else none

-- `a + b`, `a - b` and `a * b` of the debug build, where an overflow panics.
abbrev pub add : ℕ → ℕ → Exec ℕ
add a b = if ltb (a + b) usize_mod then done (a + b) else panic

abbrev pub sub : ℕ → ℕ → Exec ℕ
sub a b = if leb b a then done (a - b) else panic

abbrev pub mul : ℕ → ℕ → Exec ℕ
mul a b = if ltb (a * b) usize_mod then done (a * b) else panic

-- `!a`
abbrev pub complement : ℕ → ℕ
complement a = usize_mod - 1 - a

pub add-done : (a b : ℕ) → IsUsize (a + b) → add a b ≡ done (a + b)
add-done a b h = ground arith

pub mul-done : (a b : ℕ) → IsUsize (a * b) → mul a b ≡ done (a * b)
mul-done a b h = ground arith

pub sub-done : (a b : ℕ) → b ≤ a → sub a b ≡ done (a - b)
sub-done a b h = ground arith
