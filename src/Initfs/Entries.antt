-- ===== src/Initfs/Entries.antt =====
-- The iterator over the entries of an archive: it ends, and reads inside the archive.
use ftl.Base.{
  ℕ, zero, suc, ◌+◌, ◌-◌, ◌*◌, ◌/◌, ◌^◌, ◌≤◌, ◌<◌, ◌≡◌, ◌⊎◌, inl, inr, refl, arith, Option, none,
  some, List, [], ◌∷◌, length, subst, sym, Bool-cases, Exec, done, leb, ◌>>=◌, take, drop,
  length-take, length-drop,
}
use ftl.Base.Word.{add-done}
use ftl.Align.{align_up}
use ftl.Initfs.{
  InitFsLoader, File, get_range, read_field, read_file, read_contents, next, files, ◌~>◌,
  header_size, namesize_field, filesize_field, parse_hex, magic, trailer, same_bytes, strip_nul,
}
use ftl.Align.Laws.{align_up-pow}
use ftl.Initfs.Hex.{parse_hex-bound}

-- The bytes are the `n` bytes of the file at `at`.
pub record IsAt (file : List ℕ) (at n : ℕ) (bytes : List ℕ) : Type 0 where
  pub inside : at + n ≤ length file
  pub count : length bytes ≡ n
  pub same : bytes ≡ take n (drop at file)

-- The outcome of a step that may give up, where what it gives satisfies `P`.
abbrev pub Gives {ℓ κ} : {A : Type ℓ} → Exec (Option A) → (A → Type κ) → Type (ℓ ⊔ κ)
Gives {A = A} run P = (run ≡ done none) ⊎ ((a : A) × (run ≡ done (some a)) × P a)

and_then {ℓ κ μ ν} :
    {A : Type ℓ} {B : Type κ} {P : A → Type μ} {Q : B → Type ν} (m : Exec (Option A))
    (f : A → Exec (Option B))
    → Gives m P
    → ((a : A) → P a → Gives (f a) Q)
    → Gives (m ~> f) Q
and_then m f (inl e) g = inl (rw e refl)
and_then m f (inr (a, e, p)) g = elim (g a p) [
  | inl e' ↦ inl (rw e e')
  | inr (b, e', q) ↦ inr (b, rw e e', q)
]

get_range_lem :
    (file : List ℕ) (at n : ℕ) → at + n < 2 ^ 64 → Gives (get_range file at n) (IsAt file at n)
unfolding get_range
get_range_lem file at n fits = elim (Bool-cases (leb (at + n) (length file))) [
  | inl ok ↦ inr (
    take n (drop at file),
    ground arith,
    record {
      inside = ground arith;
      count = ground (arith, length-take n (drop at file), length-drop at file);
      same = refl;
    },
  )
  | inr past ↦ inl (ground arith)
]

read_field_lem :
    (l : InitFsLoader) (field : ℕ)
    → l.offset + field + 8 < 2 ^ 64
    → Gives (read_field l field) (λ n. n < 2 ^ 32)
unfolding read_field
read_field_lem l field fits =
    rw (add-done l.offset field (omega arith), ◌>>=◌)
      (and_then (get_range l.file (l.offset + field) 8) parse_hex
        (get_range_lem l.file (l.offset + field) 8 fits)
        (λ bytes at. parse_hex-bound bytes at.count))

-- Rounding up to four.
align_up-four : (v : ℕ) → v + 4 < 2 ^ 64 → (r : ℕ) × (align_up v 4 ≡ done r) × (v ≤ r) × (r ≤ v + 3)
align_up-four v fits =
    ((v + 4 - 1) / 4 * 4, align_up-pow v 2 fits (omega arith), omega arith, omega arith)

-- What `next` gives at an offset: an entry whose contents lie behind its header, and an offset behind
-- the contents.
pub record IsEntry (file : List ℕ) (offset : ℕ) (found : File × ℕ) : Type 0 where
  pub start : ℕ
  pub behind_header : offset + header_size ≤ start
  pub contents : IsAt file start (length found.0.contents) found.0.contents
  pub behind_contents : start + length found.0.contents ≤ found.1
  pub near : found.1 ≤ length file + 3

read_contents_lem :
    (l : InitFsLoader) (name : List ℕ) (unaligned filesize : ℕ)
    → length l.file < 2 ^ 63
    → unaligned ≤ length l.file
    → filesize < 2 ^ 32
    → l.offset + header_size ≤ unaligned
    → Gives (read_contents l name unaligned filesize) (IsEntry l.file l.offset)
unfolding read_contents
read_contents_lem l name unaligned filesize short inside hf behind =
    let (start, e, lo, hi) = align_up-four unaligned (omega arith) in
    rw (e, ◌>>=◌)
      (and_then (get_range l.file start filesize) _
        (get_range_lem l.file start filesize (omega arith))
        (λ contents at.
          let (after, e', lo', hi') = align_up-four (start + filesize) (omega (arith, at.inside)) in
          inr (
            (record { name = name; contents = contents }, after),
            rw (add-done start filesize (omega (arith, at.inside)), ◌>>=◌) (rw (e', ◌>>=◌) refl),
            record {
              start = start;
              behind_header = omega arith;
              contents = rw (at.count) at;
              behind_contents = omega (arith, at.count);
              near = omega (arith, at.inside);
            },
          )))

read_file_lem :
    (l : InitFsLoader) (namesize filesize : ℕ)
    → l.offset < 2 ^ 63
    → length l.file < 2 ^ 63
    → namesize < 2 ^ 32
    → filesize < 2 ^ 32
    → Gives (read_file l namesize filesize) (IsEntry l.file l.offset)
unfolding read_file
read_file_lem l namesize filesize near short hn hf =
    rw (add-done l.offset header_size (omega arith), ◌>>=◌)
      (and_then (get_range l.file (l.offset + header_size) namesize) _
        (get_range_lem l.file (l.offset + header_size) namesize (omega arith))
        (λ raw at. elim (Bool-cases (same_bytes (strip_nul raw) trailer)) [
          | inl last ↦ inl (rw last refl)
          | inr more ↦
              rw
                (more, add-done (l.offset + header_size) namesize (omega (arith, at.inside)), ◌>>=◌)
                (read_contents_lem l (strip_nul raw) (l.offset + header_size + namesize) filesize
                  short at.inside hf (omega arith))
        ]))

next-IsEntry :
    (l : InitFsLoader)
    → l.offset < 2 ^ 63
    → length l.file < 2 ^ 62
    → Gives (next l) (IsEntry l.file l.offset)
unfolding next
next-IsEntry l near short =
    and_then (get_range l.file l.offset 6) _ (get_range_lem l.file l.offset 6 (omega arith))
      (λ found at. elim (Bool-cases (same_bytes found magic)) [
        | inr no_magic ↦ inl (rw no_magic refl)
        | inl has_magic ↦ rw has_magic (
            and_then (read_field l namesize_field) _ (read_field_lem l namesize_field (omega arith))
              (λ namesize hn.
                and_then (read_field l filesize_field) _
                  (read_field_lem l filesize_field (omega arith))
                  (λ filesize hf. read_file_lem l namesize filesize near (omega arith) hn hf)))
      ])

-- What the entries take up, each with its header.
unfoldable pub footprint : List File → ℕ
footprint [] = 0
footprint (f ∷ fs) = header_size + length f.contents + footprint fs

-- Entries one after the other from an offset: each is in the archive behind the one before.
pub data Entries (file : List ℕ) : ℕ → List File → Type 0 where
  ends : {offset : ℕ} → Entries file offset []
  more :
      {offset : ℕ} {f : File} {after : ℕ} {rest : List File}
      → IsEntry file offset (f, after)
      → Entries file after rest
      → Entries file offset (f ∷ rest)

files_lem :
    (fuel : ℕ) (l : InitFsLoader)
    → l.offset < 2 ^ 63
    → length l.file < 2 ^ 62
    → length l.file < l.offset + fuel
    → 0 < fuel
    → (fs : List File) × (files fuel l ≡ done (some fs)) × Entries l.file l.offset fs
unfolding files
files_lem zero l near short enough pos = absurd (omega arith)
files_lem (suc fuel) l near short enough pos = elim (next-IsEntry l near short) [
  | inl e ↦ ([], rw (e, ◌>>=◌) refl, ends)
  | inr ((f, after), e, entry) ↦
      let (fs, e', rest) =
        files_lem fuel (record l { offset = after }) (omega (arith, entry.near)) short
          (omega (arith, entry.behind_header, entry.behind_contents, entry.contents.inside))
          (omega (
            arith, entry.near, entry.behind_header, entry.behind_contents, entry.contents.inside,
          )) in
      (f ∷ fs, rw (e, ◌>>=◌, e') refl, more entry rest)
]

footprint-Entries :
    (file : List ℕ) (offset : ℕ) (fs : List File)
    → Entries file offset fs
    → (fs ≡ []) ⊎ (offset + footprint fs ≤ length file)
unfolding footprint
footprint-Entries file offset [] es = inl refl
footprint-Entries file offset (f ∷ fs) (more e es) = inr (elim (footprint-Entries file _ fs es) [
  | inl last ↦ rw last (omega (arith, e.behind_header, e.contents.inside))
  | inr fits ↦ omega (arith, e.behind_header, e.behind_contents)
])

-- The reader of any archive shorter than 2 ^ 62 bytes does not panic, whatever its bytes, and ends,
-- after at most as many calls of `next` as there are bytes, and one. The contents of each file are
-- bytes of the archive behind the file's header, and behind those of the file before; so the files and
-- their headers together are no longer than the archive.
pub archive_reads :
    (file : List ℕ)
    → length file < 2 ^ 62
    → (fs : List File) × (files (suc (length file)) (record { file = file; offset = 0 })
        ≡ done (some fs))
      × Entries file 0 fs
      × (footprint fs ≤ length file)
unfolding footprint
archive_reads file short =
    let (fs, run, es) =
      files_lem (suc (length file)) (record { file = file; offset = 0 }) (omega arith) short
        (omega arith) (omega arith) in
    (
      fs,
      run,
      es,
      elim (footprint-Entries file 0 fs es) [
        | inl empty ↦ subst (λ gs. footprint gs ≤ length file) (sym empty) (omega arith)
        | inr fits ↦ omega (arith, fits)
      ],
    )
