-- ===== src/Base/Bytes.antt =====
-- Bytes in memory: little-endian words, and places in a sequence of bytes.
use mathlib.Core.List.{append_assoc}
use native.Mathlib.Nat.{pow-suc}
use Prim.Native.Nat.{ℕ, zero, suc, ◌+◌, ◌*◌, ◌/◌, ◌%◌, ◌^◌, ◌<◌}
use mathlib.Core.Path.{◌≡◌, refl, sym, ap, subst, ◌∙◌}
use mathlib.Core.List.{List, [], ◌∷◌, ◌++◌}
use native.Mathlib.Omega.{arith}
use mathlib.Core.Option.{some}
use ftl.Base.Lists.{get_elem?, length, length-append, take, drop}

-- The `k` bytes of a number, the lowest first.
unfoldable pub to_le_bytes : ℕ → ℕ → List ℕ
to_le_bytes zero n = []
to_le_bytes (suc k) n = (n % 256) ∷ to_le_bytes k (n / 256)

unfoldable pub from_le_bytes : List ℕ → ℕ
from_le_bytes [] = 0
from_le_bytes (b ∷ bs) = b + 256 * from_le_bytes bs

pub length-to_le_bytes : (k n : ℕ) → length (to_le_bytes k n) ≡ k
unfolding to_le_bytes
length-to_le_bytes zero n = refl
length-to_le_bytes (suc k) n = ap suc (length-to_le_bytes k (n / 256))

pub from_le_bytes-to_le_bytes : (k n : ℕ) → n < 256 ^ k → from_le_bytes (to_le_bytes k n) ≡ n
unfolding to_le_bytes from_le_bytes
from_le_bytes-to_le_bytes zero n h = omega arith
from_le_bytes-to_le_bytes (suc k) n h =
    let power = pow-suc 256 k in omega (arith, from_le_bytes-to_le_bytes k (n / 256) (omega arith))

-- The `n` bytes at `at`.
abbrev pub bytes_at : List ℕ → ℕ → ℕ → List ℕ
bytes_at bytes at n = take n (drop at bytes)

-- The number in the `n` bytes at `at`.
abbrev pub word_at : List ℕ → ℕ → ℕ → ℕ
word_at bytes at n = from_le_bytes (bytes_at bytes at n)

module _ {ℓ} {A : Type ℓ} where
  pub drop-append : (xs ys : List A) → drop (length xs) (xs ++ ys) ≡ ys
  drop-append [] ys = refl
  drop-append (x ∷ xs) ys = drop-append xs ys

  pub take-append : (xs ys : List A) → take (length xs) (xs ++ ys) ≡ xs
  take-append [] ys = refl
  take-append (x ∷ xs) ys = ap (◌∷◌ x) (take-append xs ys)

-- At `at` the bytes go on with `rest`.
pub record IsCursor (bytes : List ℕ) (at : ℕ) (rest : List ℕ) : Type 0 where
  pub prefix : List ℕ
  pub whole : bytes ≡ prefix ++ rest
  pub place : length prefix ≡ at

pub move :
    {bytes rest : List ℕ} {at at' : ℕ} → IsCursor bytes at rest → at ≡ at' → IsCursor bytes at' rest
move c e = record { prefix = c.prefix; whole = c.whole; place = c.place ∙ e }

pub advance :
    {bytes rest : List ℕ} {at : ℕ} (mid : List ℕ) (n : ℕ)
    → IsCursor bytes at (mid ++ rest)
    → length mid ≡ n
    → IsCursor bytes (at + n) rest
advance {rest} mid n c e = record {
  prefix = c.prefix ++ mid;
  whole = c.whole ∙ sym (append_assoc c.prefix mid rest);
  place = omega (arith, length-append c.prefix mid, c.place);
}

pub regroup :
    {bytes : List ℕ} {at : ℕ} (a b rest : List ℕ)
    → IsCursor bytes at ((a ++ b) ++ rest)
    → IsCursor bytes at (a ++ (b ++ rest))
regroup a b rest c = record {
  prefix = c.prefix;
  whole = c.whole ∙ ap (λ t. c.prefix ++ t) (append_assoc a b rest);
  place = c.place;
}

-- What stands at a cursor.
pub bytes_at-IsCursor :
    {bytes : List ℕ} {at : ℕ} (mid rest : List ℕ)
    → IsCursor bytes at (mid ++ rest)
    → bytes_at bytes at (length mid) ≡ mid
bytes_at-IsCursor {bytes} {at} mid rest c =
    rw (c.whole, ← c.place, drop-append c.prefix (mid ++ rest)) (take-append mid rest)

pub word_at-IsCursor :
    {bytes : List ℕ} {at : ℕ} (k n : ℕ) (rest : List ℕ)
    → IsCursor bytes at (to_le_bytes k n ++ rest)
    → n < 256 ^ k
    → word_at bytes at k ≡ n
word_at-IsCursor {bytes} {at} k n rest c h =
    ap from_le_bytes (
      ap (bytes_at bytes at) (sym (length-to_le_bytes k n))
      ∙ bytes_at-IsCursor (to_le_bytes k n) rest c)
    ∙ from_le_bytes-to_le_bytes k n h

-- The fields of a structure, each of a width and a value, one after the other.
unfoldable pub write_fields : List (ℕ × ℕ) → List ℕ
unfolding to_le_bytes
write_fields [] = []
write_fields ((k, n) ∷ fs) = to_le_bytes k n ++ write_fields fs

-- Where the `i`-th field stands.
abbrev pub field_offset : List (ℕ × ℕ) → ℕ → ℕ
field_offset [] i = 0
field_offset ((k, n) ∷ fs) zero = 0
field_offset ((k, n) ∷ fs) (suc i) = k + field_offset fs i

abbrev pub fields_size : List (ℕ × ℕ) → ℕ
fields_size [] = 0
fields_size ((k, n) ∷ fs) = k + fields_size fs

pub length-write_fields : (fs : List (ℕ × ℕ)) → length (write_fields fs) ≡ fields_size fs
unfolding write_fields
length-write_fields [] = refl
length-write_fields ((k, n) ∷ fs) = omega (
  arith,
  length-append (to_le_bytes k n) (write_fields fs),
  length-to_le_bytes k n,
  length-write_fields fs,
)

pub word_at-field :
    (fs : List (ℕ × ℕ)) {bytes : List ℕ} {at : ℕ} (rest : List ℕ) (i k n : ℕ)
    → IsCursor bytes at (write_fields fs ++ rest)
    → get_elem? fs i ≡ some (k, n)
    → n < 256 ^ k
    → word_at bytes (at + field_offset fs i) k ≡ n
unfolding write_fields
word_at-field [] rest i k n c e h = cc
word_at-field ((k', n') ∷ fs) {bytes} {at} rest zero k n c e h =
    let same_width : k ≡ k' = cc in
    let same_value : n ≡ n' = cc in
    let c' = move (regroup (to_le_bytes k' n') (write_fields fs) rest c) (omega arith) in
    rw (same_width, same_value)
      (word_at-IsCursor {at = at + 0} k' n' (write_fields fs ++ rest) c'
        (rw (← same_width, ← same_value) h))
word_at-field ((k', n') ∷ fs) {bytes} {at} rest (suc i) k n c e h =
    let c' = regroup (to_le_bytes k' n') (write_fields fs) rest c in
    let place : at + k' + field_offset fs i ≡ at + (k' + field_offset fs i) = omega arith in
    subst (λ p. word_at bytes p k ≡ n) place
      (word_at-field fs rest i k n (advance (to_le_bytes k' n') k' c' (length-to_le_bytes k' n')) e
        h)
