-- ===== src/Initfs/Archive.antt =====
-- Archives as they are written, and the reader on them. The format: a header of 13 numbers in eight
-- hexadecimal digits behind the magic, the name with a null byte, and the contents; the contents and
-- the next header start at multiples of four; an entry with a name of its own ends the archive.
pub mod Cursor
pub mod Read
use native.Mathlib.Nat.{mod-lt}
use mathlib.Core.List.{append_assoc}
use ftl.Base.{
  ℕ, zero, suc, ◌+◌, ◌-◌, ◌*◌, ◌/◌, ◌%◌, ◌^◌, ◌≤◌, ◌<◌, ◌≡◌, refl, sym, ap, subst, ◌∙◌, arith, Bool,
  true, false, Option, none, some, List, [], ◌∷◌, ◌++◌, length, length-append, map, inl, inr,
  Bool-cases, Exec, done, leb, if◌then◌else◌, ◌>>=◌, take, drop, replicate, length-replicate, All,
}
use ftl.Base.Word.{add, add-done}
use ftl.Align.{align_up}
use ftl.Align.Laws.{align_up-pow}
use ftl.Initfs.{
  InitFsLoader, File, get_range, read_field, read_contents, read_file, next, files, ◌~>◌,
  header_size, namesize_field, filesize_field, parse_hex, magic, trailer, same_bytes, strip_nul,
}
use ftl.Initfs.Hex.{to_hex, parse_hex-to_hex}

-- A file, and the fields of its header that the reader leaves alone, in the order of the header:
-- before the file's size, between the two sizes, and after the size of the name.
pub record Entry : Type 0 where
  pub file : File
  pub before : List ℕ
  pub between : List ℕ
  pub after : List ℕ

abbrev pub namesize : Entry → ℕ
namesize e = length e.file.name + 1

abbrev pub filesize : Entry → ℕ
filesize e = length e.file.contents

-- The bytes up to the next multiple of four.
abbrev pub padding : ℕ → List ℕ
padding n = replicate ((4 - n % 4) % 4) 0

-- An entry, and what follows it.
unfoldable pub write_entry : Bool → Entry → List ℕ → List ℕ
write_entry upper e rest =
    magic
    ++ (e.before
        ++ (to_hex upper 8 (filesize e)
            ++ (e.between
                ++ (to_hex upper 8 (namesize e)
                    ++ (e.after
                        ++ ((e.file.name ++ 0 ∷ [])
                            ++ (padding (header_size + namesize e)
                                ++ (e.file.contents ++ (padding (filesize e) ++ rest)))))))))

-- What the format asks of an entry.
pub record IsEntryForm (e : Entry) : Type 0 where
  pub before : length e.before ≡ 48
  pub between : length e.between ≡ 32
  pub after : length e.after ≡ 8
  pub name : namesize e < 2 ^ 32
  pub contents : filesize e < 2 ^ 32

unfoldable pub write_archive : Bool → List Entry → Entry → List ℕ → List ℕ
unfolding write_entry
write_archive upper [] last rest = write_entry upper last rest
write_archive upper (e ∷ es) last rest = write_entry upper e (write_archive upper es last rest)

-- The entries of an archive: of the right form, and each but the last with a name of its own.
pub record IsArchive (es : List Entry) (last : Entry) : Type 0 where
  pub forms : All IsEntryForm es
  pub names : All (λ e. same_bytes e.file.name trailer ≡ false) es
  pub last_form : IsEntryForm last
  pub last_name : same_bytes last.file.name trailer ≡ true
