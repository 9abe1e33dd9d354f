-- ===== src/Initfs.antt =====
-- kernel/src/initfs.rs: the reader of the boot module, a CPIO archive in the new ASCII format.
pub mod Hex
pub mod Entries
pub mod Archive
use ftl.Base.{
  ℕ, zero, suc, ◌+◌, ◌-◌, ltb, leb, ◌==◌, if◌then◌else◌, Bool, true, false, ◌&&◌, Option, none,
  some, List, [], ◌∷◌, length, take, drop, Exec, done, ◌>>=◌,
}
use ftl.Base.Word.{add, mul}
use ftl.Align.{align_up}
use ftl.Arch.Direct.{paddr2vaddr}
use ftl.Memory.Visit.{Range}
use ftl.Memory.Page.{Ram}

-- The places of two fields in `CpioHeader`, and its size: six bytes, and 13 fields of eight bytes.
abbrev pub filesize_field : ℕ
filesize_field = 54

abbrev pub namesize_field : ℕ
namesize_field = 94

abbrev pub header_size : ℕ
header_size = 110

abbrev in_range : ℕ → ℕ → ℕ → Bool
in_range lo hi byte = leb lo byte && leb byte hi

-- The `match` of `parse_hex`.
unfoldable pub hex_digit : ℕ → Option ℕ
hex_digit byte =
    if in_range b'0' b'9' byte
    then some (byte - b'0')
    else if in_range b'a' b'f' byte
    then some (byte - b'a' + 10)
    else if in_range b'A' b'F' byte
    then some (byte - b'A' + 10)
    else none

-- Its loop.
unfoldable pub hex_loop : ℕ → List ℕ → Exec (Option ℕ)
unfolding hex_digit
hex_loop value [] = done (some value)
hex_loop value (byte ∷ rest) = elim (hex_digit byte) [
  | none ↦ done none
  | some digit ↦ do shifted ← mul value 16; next ← add shifted digit; hex_loop next rest
]

unfoldable pub parse_hex : List ℕ → Exec (Option ℕ)
unfolding hex_loop
parse_hex s = hex_loop 0 s

pub record File : Type 0 where
  pub name : List ℕ
  pub contents : List ℕ

pub record InitFsLoader : Type 0 where
  pub file : List ℕ
  pub offset : ℕ

-- `slice::from_raw_parts`
read_bytes : Ram → ℕ → ℕ → List ℕ
read_bytes ram at zero = []
read_bytes ram at (suc n) = ram at ∷ read_bytes ram (at + 1) n

unfoldable pub new : Ram → Range → InitFsLoader
unfolding read_bytes
new ram module_range =
    let start = paddr2vaddr module_range.start in
    record { file = read_bytes ram start (paddr2vaddr module_range.end - start); offset = 0 }

-- `file.get(at..at + n)`
unfoldable pub get_range : List ℕ → ℕ → ℕ → Exec (Option (List ℕ))
get_range file at n = do
  end ← add at n
  done (if leb end (length file) then some (take n (drop at file)) else none)

abbrev pub same_bytes : List ℕ → List ℕ → Bool
same_bytes [] [] = true
same_bytes (x ∷ xs) (y ∷ ys) = x == y && same_bytes xs ys
same_bytes _ _ = false

-- "Remove the trailing null byte."
unfoldable pub strip_nul : List ℕ → List ℕ
strip_nul [] = []
strip_nul (a ∷ []) = if a == 0 then [] else a ∷ []
strip_nul (a ∷ b ∷ rest) = a ∷ strip_nul (b ∷ rest)

abbrev pub magic : List ℕ
magic = b'0' ∷ b'7' ∷ b'0' ∷ b'7' ∷ b'0' ∷ b'1' ∷ []

abbrev pub trailer : List ℕ
trailer = b'T' ∷ b'R' ∷ b'A' ∷ b'I' ∷ b'L' ∷ b'E' ∷ b'R' ∷ b'!' ∷ b'!' ∷ b'!' ∷ []

-- `?` on an option, where the function returns an option.
infixl 5 ◌~>◌
abbrev pub ◌~>◌ {ℓ κ} :
    {A : Type ℓ} {B : Type κ} → Exec (Option A) → (A → Exec (Option B)) → Exec (Option B)
m ~> f = m >>= elim [ none ↦ done none | some a ↦ f a ]

-- A number in a field of the header.
unfoldable pub read_field : InitFsLoader → ℕ → Exec (Option ℕ)
unfolding get_range parse_hex
read_field l field = do at ← add l.offset field; get_range l.file at 8 ~> parse_hex

-- The end of `next`. The result has the offset that the loader is left with.
unfoldable pub read_contents : InitFsLoader → List ℕ → ℕ → ℕ → Exec (Option (File × ℕ))
unfolding get_range
read_contents l name unaligned filesize = do
  data_offset ← align_up unaligned 4
  get_range l.file data_offset filesize ~> λ contents. do
    end ← add data_offset filesize
    offset ← align_up end 4
    done (some (record { name = name; contents = contents }, offset))

-- The part of `next` past the two sizes.
unfoldable pub read_file : InitFsLoader → ℕ → ℕ → Exec (Option (File × ℕ))
unfolding get_range strip_nul read_contents
read_file l namesize filesize = do
  name_offset ← add l.offset header_size
  get_range l.file name_offset namesize ~> λ raw.
      if same_bytes (strip_nul raw) trailer then done none else (do
        unaligned ← add name_offset namesize
        read_contents l (strip_nul raw) unaligned filesize)

-- `next`. Where it returns `None`, the loader is as before.
unfoldable pub next : InitFsLoader → Exec (Option (File × ℕ))
unfolding get_range read_field read_file
next l = get_range l.file l.offset 6 ~> λ found.
    if same_bytes found magic
    then (read_field l namesize_field ~> λ namesize.
        read_field l filesize_field ~> λ filesize. read_file l namesize filesize)
    else done none

-- `for file in initfs`, on fuel: `none` if the fuel does not do.
unfoldable pub files : ℕ → InitFsLoader → Exec (Option (List File))
unfolding next
files zero l = done none
files (suc fuel) l = do
  found ← next l
  elim found [
    | none ↦ done (some [])
    | some (f, offset) ↦ files fuel (record l { offset = offset }) ~> λ rest. done (some (f ∷ rest))
  ]
