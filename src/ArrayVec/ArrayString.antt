-- ===== src/ArrayVec/ArrayString.antt =====
-- libs/rust/ftl_arrayvec/src/array_string.rs: a string in an `ArrayVec` of bytes.
use ftl.Base.{
  ℕ, ◌≤◌, ◌<◌, ◌≡◌, ◌⊎◌, inl, inr, refl, arith, ltb, if◌then◌else◌, Bool-cases, Option, none, some,
  List, [], ◌∷◌, ◌++◌, map, length, replicate, length-replicate, All, Exec, done, panic, ◌>>=◌,
  Result, ok, err,
}
use ftl.Base.Word.{IsUsize}
use ftl.ArrayVec
use ftl.ArrayVec.{
  ArrayVec, CapacityError, capacity_error, try_push, try_extend_from_slice,
  extend_from_slice_unchecked, as_slice,
}
use ftl.ArrayVec.Slots.{write_all-slots, read_slots-slots}

pub data FromAsciiError : Type 0 where
  non_ascii : ℕ → FromAsciiError
  capacity : FromAsciiError

pub record ArrayString : Type 0 where
  pub inner : ArrayVec ℕ

unfoldable pub new : ℕ → ArrayString
unfolding ArrayVec.new
new N = record { inner = ArrayVec.new N }

unfoldable pub from_static : ℕ → List ℕ → Exec ArrayString
unfolding new extend_from_slice_unchecked
from_static N string = if ltb N (length string) then panic else (do
  inner ← extend_from_slice_unchecked (new N).inner string
  done (record { inner = inner }))

unfoldable pub push : ℕ → ArrayString → ℕ → Exec (Result (Unit {0}) CapacityError × ArrayString)
unfolding try_push
push N s byte = do
  (reply, inner) ← try_push N s.inner byte
  elim reply [
    | ok _ ↦ done (ok tt, record { inner = inner })
    | err _ ↦ done (err capacity_error, record { inner = inner })
  ]

unfoldable pub push_str :
    ℕ → ArrayString → List ℕ → Exec (Result (Unit {0}) CapacityError × ArrayString)
unfolding try_extend_from_slice
push_str N s string = do
  (reply, inner) ← try_extend_from_slice N s.inner string
  done (reply, record { inner = inner })

-- `TryFrom<&str>`
unfoldable pub try_from : ℕ → List ℕ → Exec (Result ArrayString CapacityError)
unfolding new push_str
try_from N string = do
  (reply, s) ← push_str N (new N) string
  done (elim reply [ ok _ ↦ ok s | err e ↦ err e ])

-- The loop of `from_ascii_str`: the first byte that is not ASCII.
unfoldable pub first_non_ascii : List ℕ → Option ℕ
first_non_ascii [] = none
first_non_ascii (b ∷ rest) = if ltb b 128 then first_non_ascii rest else some b

unfoldable pub from_ascii_str : ℕ → List ℕ → Exec (Result ArrayString FromAsciiError)
unfolding first_non_ascii try_from
from_ascii_str N bytes = elim (first_non_ascii bytes) [
  | some b ↦ done (err (non_ascii b))
  | none ↦ do reply ← try_from N bytes; done (elim reply [ ok s ↦ ok s | err _ ↦ err capacity ])
]

unfoldable pub as_bytes : ArrayString → Exec (List ℕ)
unfolding as_slice
as_bytes s = as_slice s.inner

abbrev pub IsAscii : ℕ → Type 0
IsAscii b = b < 128

-- The bytes up to the first that is not ASCII.
pub record IsFirst (bytes : List ℕ) (b : ℕ) : Type 0 where
  pub before : List ℕ
  pub after : List ℕ
  pub split : bytes ≡ before ++ b ∷ after
  pub ascii : All IsAscii before
  pub not_ascii : 128 ≤ b

first_non_ascii_lem :
    (bytes : List ℕ)
    → ((first_non_ascii bytes ≡ none) × All IsAscii bytes)
      ⊎ ((b : ℕ) × (first_non_ascii bytes ≡ some b) × IsFirst bytes b)
unfolding first_non_ascii
first_non_ascii_lem [] = inl (refl, tt)
first_non_ascii_lem (c ∷ rest) = elim (Bool-cases (ltb c 128)) [
  | inr not_ascii ↦ inr (
    c,
    rw not_ascii refl,
    record { before = []; after = rest; split = refl; ascii = tt; not_ascii = ground arith },
  )
  | inl is_ascii ↦ elim (first_non_ascii_lem rest) [
    | inl (e, all) ↦ inl (rw is_ascii e, (ground arith, all))
    | inr (b, e, first) ↦ inr (
      b,
      rw is_ascii e,
      record {
        before = c ∷ first.before;
        after = first.after;
        split = rw (first.split) refl;
        ascii = (ground arith, first.ascii);
        not_ascii = first.not_ascii;
      },
    )
  ]
]

-- `try_from` keeps a string that fits.
try_from-fits :
    (N : ℕ) (bytes : List ℕ)
    → IsUsize (length bytes)
    → length bytes ≤ N
    → (s : ArrayString) × (try_from N bytes ≡ done (ok s)) × (as_bytes s ≡ done bytes)
unfolding try_from as_bytes
try_from-fits N bytes small fits =
    let (rest, e, n) =
      write_all-slots bytes [] (replicate N none)
        (omega (arith, length-replicate {A = Option ℕ} N none)) in
    (
      record { inner = record { elems = map some bytes ++ rest; len = length bytes } },
      ground (arith, e),
      read_slots-slots bytes rest,
    )

try_from-over :
    (N : ℕ) (bytes : List ℕ)
    → IsUsize (length bytes)
    → N < length bytes
    → try_from N bytes ≡ done (err capacity_error)
unfolding try_from
try_from-over N bytes small over = ground arith

-- Of bytes whose number is a `usize`, `from_ascii_str` makes a string of capacity `N` that holds
-- exactly these bytes, if they are all ASCII and at most `N`. It gives back the first byte that is not
-- ASCII, if there is one; and else it fails for the capacity, exactly when there are more than `N`. It
-- does not panic.
pub from_ascii_str_lem :
    (N : ℕ) (bytes : List ℕ)
    → IsUsize (length bytes)
    → ((s : ArrayString) × (from_ascii_str N bytes ≡ done (ok s))
        × All IsAscii bytes
        × (length bytes ≤ N)
        × (as_bytes s ≡ done bytes))
      ⊎ (((b : ℕ) × (from_ascii_str N bytes ≡ done (err (non_ascii b))) × IsFirst bytes b)
          ⊎ ((from_ascii_str N bytes ≡ done (err capacity))
              × All IsAscii bytes
              × (N < length bytes)))
unfolding from_ascii_str
from_ascii_str_lem N bytes small = elim (first_non_ascii_lem bytes) [
  | inr (b, e, first) ↦ inr (inl (b, rw (from_ascii_str, e) refl, first))
  | inl (e, all) ↦ elim (Bool-cases (ltb N (length bytes))) [
    | inl over ↦ inr (
        inr (
          rw (from_ascii_str, e, try_from-over N bytes small (ground arith)) refl,
          all,
          ground arith,
        ))
    | inr fits ↦
        let (s, run, same) = try_from-fits N bytes small (ground arith) in
        inl (s, rw (from_ascii_str, e, run) refl, all, ground arith, same)
  ]
]
