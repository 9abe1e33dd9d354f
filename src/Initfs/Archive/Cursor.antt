-- ===== src/Initfs/Archive/Cursor.antt =====
-- A place in an archive, and what the reader of kernel/src/initfs.rs finds there.
use ftl.Base.{
  ℕ, zero, suc, ◌+◌, ◌^◌, ◌<◌, ◌≡◌, refl, ap, arith, Bool, some, List, [], ◌∷◌, ◌++◌, length,
  length-append, done,
}
use ftl.Base.Word.{add-done}
use ftl.Base.Bytes.{IsCursor, drop-append, take-append}
use ftl.Initfs.{InitFsLoader, get_range, read_field, strip_nul}
use ftl.Initfs.Hex.{to_hex, parse_hex-to_hex}

pub get_range-IsCursor :
    {file : List ℕ} {at : ℕ} (mid rest : List ℕ) (n : ℕ)
    → IsCursor file at (mid ++ rest)
    → length mid ≡ n
    → length file < 2 ^ 62
    → get_range file at n ≡ done (some mid)
unfolding get_range
get_range-IsCursor {file} {at} mid rest n c e short = ground (
  arith,
  c.whole,
  c.place,
  e,
  drop-append c.prefix (mid ++ rest),
  take-append mid rest,
  length-append c.prefix (mid ++ rest),
  length-append mid rest,
)

pub strip_nul-name : (name : List ℕ) → strip_nul (name ++ 0 ∷ []) ≡ name
unfolding strip_nul
strip_nul-name [] = refl
strip_nul-name (a ∷ []) = refl
strip_nul-name (a ∷ b ∷ rest) = ap (◌∷◌ a) (strip_nul-name (b ∷ rest))

pub length-to_hex : (upper : Bool) (k n : ℕ) → length (to_hex upper k n) ≡ k
unfolding to_hex
length-to_hex upper zero n = refl
length-to_hex upper (suc k) n = ap suc (length-to_hex upper k n)

pub read_field-IsCursor :
    (l : InitFsLoader) (field : ℕ) (upper : Bool) (n : ℕ) (rest : List ℕ)
    → IsCursor l.file (l.offset + field) (to_hex upper 8 n ++ rest)
    → n < 2 ^ 32
    → l.offset + field < 2 ^ 64
    → length l.file < 2 ^ 62
    → read_field l field ≡ done (some n)
unfolding read_field
read_field-IsCursor l field upper n rest c small fits short =
    rw
      (
        add-done l.offset field fits,
        get_range-IsCursor (to_hex upper 8 n) rest 8 c (length-to_hex upper 8 n) short,
      )
      (parse_hex-to_hex upper n small)
