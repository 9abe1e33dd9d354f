-- ===== src/Base/Outcome.antt =====
-- What a Rust function ends in. A panic (a failed assertion, an arithmetic overflow or an index out
-- of range, in the default debug build) stops the kernel, so no state survives it.
use mathlib.Core.Path.{◌≡◌}
use mathlib.Core.Bool.{Bool, true, false}
use mathlib.Core.Option.{Option, none, some}

pub data Exec {ℓ} (A : Type ℓ) : Type ℓ where
  done : A → Exec A
  panic : Exec A

-- Rust's `Result`.
pub data Result {ℓ κ} (A : Type ℓ) (E : Type κ) : Type (ℓ ⊔ κ) where
  ok : A → Result A E
  err : E → Result A E

infixl 5 ◌>>=◌ ◌>>◌
abbrev pub ◌>>=◌ {ℓ κ} : {A : Type ℓ} {B : Type κ} → Exec A → (A → Exec B) → Exec B
done a >>= f = f a
panic >>= f = panic

abbrev pub ◌>>◌ {ℓ} : {B : Type ℓ} → Exec (Unit {0}) → Exec B → Exec B
m >> k = m >>= λ _. k

-- `assert!` and, in the debug build, `debug_assert!`.
abbrev pub assert : Bool → Exec (Unit {0})
assert true = done tt
assert false = panic

-- `unwrap` and `expect` of an `Option`.
abbrev pub unwrap {ℓ} : {A : Type ℓ} → Option A → Exec A
unwrap none = panic
unwrap (some a) = done a

pub done-injective {ℓ} : {A : Type ℓ} {a b : A} → ◌≡◌ {A = Exec A} (done a) (done b) → a ≡ b
done-injective e = cc
