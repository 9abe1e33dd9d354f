-- ===== src/Initfs/Archive/Read.antt =====
-- The reader of kernel/src/initfs.rs on the archives that were written.
use ftl.Base.{
  ℕ, suc, ◌+◌, ◌-◌, ◌*◌, ◌/◌, ◌%◌, ◌^◌, ◌≤◌, ◌<◌, ◌≡◌, refl, ap, ◌∙◌, arith, Bool, Option, none,
  some, List, [], ◌∷◌, ◌++◌, length, length-append, map, inl, inr, Bool-cases, done, if◌then◌else◌,
  length-replicate,
}
use ftl.Base.Word.{add-done}
use ftl.Align.{align_up}
use ftl.Align.Laws.{align_up-pow}
use ftl.Initfs.{
  InitFsLoader, File, read_contents, read_file, next, files, header_size, namesize_field,
  filesize_field, magic, trailer, same_bytes,
}
use ftl.Initfs.Hex.{to_hex}
use ftl.Initfs.Archive.{
  Entry, namesize, filesize, padding, write_entry, IsEntryForm, write_archive, IsArchive,
}
use ftl.Base.Bytes.{IsCursor, move, advance}
use ftl.Initfs.Archive.Cursor.{
  get_range-IsCursor, strip_nul-name, length-to_hex, read_field-IsCursor,
}

-- The length of an entry with its padding.
abbrev pub entry_size : Entry → ℕ
entry_size e =
    header_size
    + namesize e
    + (4 - (header_size + namesize e) % 4) % 4
    + filesize e
    + (4 - filesize e % 4) % 4

-- The places in an entry that the reader goes to.
record IsParts (l : InitFsLoader) (upper : Bool) (e : Entry) (rest : List ℕ) : Type 0 where
  rest1 : List ℕ
  rest2 : List ℕ
  at_magic : IsCursor l.file l.offset (magic ++ rest1)
  at_filesize : IsCursor l.file (l.offset + filesize_field) (to_hex upper 8 (filesize e) ++ rest2)
  rest3 : List ℕ
  at_namesize : IsCursor l.file (l.offset + namesize_field) (to_hex upper 8 (namesize e) ++ rest3)
  rest4 : List ℕ
  at_name : IsCursor l.file (l.offset + header_size) ((e.file.name ++ 0 ∷ []) ++ rest4)
  rest5 : List ℕ
  at_contents :
      IsCursor l.file
        (l.offset + header_size + namesize e + (4 - (header_size + namesize e) % 4) % 4)
        (e.file.contents ++ rest5)
  at_end : IsCursor l.file (l.offset + entry_size e) rest

IsParts_lem :
    (l : InitFsLoader) (upper : Bool) (e : Entry) (rest : List ℕ)
    → IsCursor l.file l.offset (write_entry upper e rest)
    → IsEntryForm e
    → IsParts l upper e rest
unfolding write_entry
IsParts_lem l upper e rest c0 form =
    let c1 = advance magic 6 c0 refl in
    let c2 = advance e.before 48 c1 form.before in
    let c3 = advance (to_hex upper 8 (filesize e)) 8 c2 (length-to_hex upper 8 (filesize e)) in
    let c4 = advance e.between 32 c3 form.between in
    let c5 = advance (to_hex upper 8 (namesize e)) 8 c4 (length-to_hex upper 8 (namesize e)) in
    let c6 = advance e.after 8 c5 form.after in
    let c7 = advance (e.file.name ++ 0 ∷ []) (namesize e) c6 (length-append e.file.name (0 ∷ [])) in
    let c8 = advance (padding (header_size + namesize e)) _ c7 (length-replicate _ 0) in
    let c9 = advance e.file.contents (filesize e) c8 refl in
    let c10 = advance (padding (filesize e)) _ c9 (length-replicate _ 0) in
    record {
      rest1 = _;
      rest2 = _;
      at_magic = c0;
      at_filesize = move c2 (omega arith);
      rest3 = _;
      at_namesize = move c4 (omega arith);
      rest4 = _;
      at_name = move c6 (omega arith);
      rest5 = _;
      at_contents = move c8 (omega arith);
      at_end = move c10 (omega arith);
    }

-- What `next` returns at an entry: nothing at the one that ends the archive.
abbrev found : Entry → ℕ → Option (File × ℕ)
found e after = if same_bytes e.file.name trailer then none else some (e.file, after)

-- Rounding up to four skips the padding.
align_up-padding :
    (u at n : ℕ) → u ≡ at + n → at % 4 ≡ 0 → u < 2 ^ 63 → align_up u 4 ≡ done (u + (4 - n % 4) % 4)
align_up-padding u at n e aligned small =
    let same : (u + 4 - 1) / 4 * 4 ≡ u + (4 - n % 4) % 4 = omega arith in
    align_up-pow u 2 (omega arith) (omega arith) ∙ ap done same

read_contents-write_entry :
    (l : InitFsLoader) (upper : Bool) (e : Entry) (rest : List ℕ)
    → IsParts l upper e rest
    → l.offset % 4 ≡ 0
    → l.offset + entry_size e ≤ length l.file
    → length l.file < 2 ^ 62
    → read_contents l e.file.name (l.offset + header_size + namesize e) (filesize e)
      ≡ done (some (e.file, l.offset + entry_size e))
unfolding read_contents
read_contents-write_entry l upper e rest parts aligned inside short =
    let unaligned = l.offset + header_size + namesize e in
    let start = unaligned + (4 - (header_size + namesize e) % 4) % 4 in
    let first =
      align_up-padding unaligned l.offset (header_size + namesize e) (omega arith) aligned
        (omega arith) in
    let second =
      align_up-padding (start + filesize e) start (filesize e) refl (omega arith) (omega arith) in
    let same : start + filesize e + (4 - filesize e % 4) % 4 ≡ l.offset + entry_size e =
      omega arith in
    rw
      (
        first,
        get_range-IsCursor e.file.contents parts.rest5 (filesize e) parts.at_contents refl short,
        add-done start (filesize e) (omega arith),
        second,
        same,
      )
      refl

read_file-write_entry :
    (l : InitFsLoader) (upper : Bool) (e : Entry) (rest : List ℕ)
    → IsParts l upper e rest
    → l.offset % 4 ≡ 0
    → l.offset + entry_size e ≤ length l.file
    → length l.file < 2 ^ 62
    → read_file l (namesize e) (filesize e) ≡ done (found e (l.offset + entry_size e))
unfolding read_file
read_file-write_entry l upper e rest parts aligned inside short =
    let raw = e.file.name ++ 0 ∷ [] in
    let name_found =
      get_range-IsCursor raw parts.rest4 (namesize e) parts.at_name
        (length-append e.file.name (0 ∷ [])) short in
    elim (Bool-cases (same_bytes e.file.name trailer)) [
      | inl last ↦
          rw
            (
              add-done l.offset header_size (omega arith),
              name_found,
              strip_nul-name e.file.name,
              last,
            )
            refl
      | inr more ↦
          rw
            (
              add-done l.offset header_size (omega arith),
              name_found,
              strip_nul-name e.file.name,
              more,
              add-done (l.offset + header_size) (namesize e) (omega arith),
            )
            (ap (λ n. read_contents l n (l.offset + header_size + namesize e) (filesize e))
                (strip_nul-name e.file.name)
              ∙ read_contents-write_entry l upper e rest parts aligned inside short)
    ]

next-write_entry :
    (l : InitFsLoader) (upper : Bool) (e : Entry) (rest : List ℕ)
    → IsParts l upper e rest
    → IsEntryForm e
    → l.offset % 4 ≡ 0
    → l.offset + entry_size e ≤ length l.file
    → length l.file < 2 ^ 62
    → next l ≡ done (found e (l.offset + entry_size e))
unfolding next
next-write_entry l upper e rest parts form aligned inside short =
    rw
      (
        get_range-IsCursor magic parts.rest1 6 parts.at_magic refl short,
        read_field-IsCursor l namesize_field upper (namesize e) parts.rest3 parts.at_namesize
            form.name (omega arith) short,
        read_field-IsCursor l filesize_field upper (filesize e) parts.rest2 parts.at_filesize
            form.contents (omega arith) short,
      )
      (read_file-write_entry l upper e rest parts aligned inside short)

at_end-inside : {file rest : List ℕ} {at : ℕ} → IsCursor file at rest → at ≤ length file
at_end-inside {rest} c = omega (arith, ap length c.whole, length-append c.prefix rest, c.place)

files-write_archive :
    (upper : Bool) (es : List Entry) (last : Entry) (rest : List ℕ) (l : InitFsLoader)
    → IsArchive es last
    → IsCursor l.file l.offset (write_archive upper es last rest)
    → l.offset % 4 ≡ 0
    → length l.file < 2 ^ 62
    → files (suc (length es)) l ≡ done (some (map (λ e. e.file) es))
unfolding files write_archive
files-write_archive upper [] last rest l a c aligned short =
    let parts = IsParts_lem l upper last rest c a.last_form in
    rw
      (
        next-write_entry l upper last rest parts a.last_form aligned (at_end-inside parts.at_end)
            short,
        a.last_name,
      )
      refl
files-write_archive upper (e ∷ es) last rest l a c aligned short =
    let more = write_archive upper es last rest in
    let parts = IsParts_lem l upper e more c a.forms.0 in
    let tail : IsArchive es last = record {
      forms = a.forms.1;
      names = a.names.1;
      last_form = a.last_form;
      last_name = a.last_name;
    } in
    rw
      (
        next-write_entry l upper e more parts a.forms.0 aligned (at_end-inside parts.at_end) short,
        a.names.0,
        files-write_archive upper es last rest (record l { offset = l.offset + entry_size e }) tail
            parts.at_end (omega arith) short,
      )
      refl

-- The reader of an archive of well-formed entries, in digits of either case, whatever the other fields
-- of the headers and whatever follows the archive, returns the names and the contents of the files, in
-- their order, and stops at the entry that ends the archive. The module is shorter than 2 ^ 62 bytes.
pub files-write :
    (upper : Bool) (es : List Entry) (last : Entry) (rest : List ℕ)
    → IsArchive es last
    → length (write_archive upper es last rest) < 2 ^ 62
    → files (suc (length es)) (record { file = write_archive upper es last rest; offset = 0 })
      ≡ done (some (map (λ e. e.file) es))
files-write upper es last rest a short =
    files-write_archive upper es last rest _ a (record { prefix = []; whole = refl; place = refl })
      refl short
