-- ===== src/Base/Fallible.antt =====
-- A Rust function that returns a `Result`, or panics: `?` is the bind.
use mathlib.Core.Option.{Option, none, some}
use ftl.Base.Outcome.{Exec, done, panic, Result, ok, err}

abbrev pub Fallible {ℓ κ} : Type ℓ → Type κ → Type (ℓ ⊔ κ)
Fallible A E = Exec (Result A E)

module _ {ℓ κ μ} {A : Type ℓ} {B : Type κ} {E : Type μ} where
  infixl 5 ◌>>=◌
  abbrev pub ◌>>=◌ : Fallible A E → (A → Fallible B E) → Fallible B E
  done (ok a) >>= f = f a
  done (err e) >>= f = done (err e)
  panic >>= f = panic

module _ {ℓ κ} {B : Type ℓ} {E : Type κ} where
  infixl 5 ◌>>◌
  abbrev pub ◌>>◌ : Fallible (Unit {0}) E → Fallible B E → Fallible B E
  m >> k = m >>= λ _. k

module _ {ℓ κ} {A : Type ℓ} {E : Type κ} where
  abbrev pub return : A → Fallible A E
  return a = done (ok a)

  abbrev pub fail : E → Fallible A E
  fail e = done (err e)

  -- What cannot fail, but may panic.
  abbrev pub lift : Exec A → Fallible A E
  lift (done a) = done (ok a)
  lift panic = panic

  abbrev pub ok_or : Option A → E → Fallible A E
  ok_or none e = done (err e)
  ok_or (some a) e = done (ok a)
