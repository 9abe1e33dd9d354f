-- ===== src/Tests/Archives.antt =====
-- An archive of two files, one of them empty, with lower case digits.
use ftl.Base.{ℕ, ◌≤◌, ◌≡◌, refl, arith, false, some, List, [], ◌∷◌, length, replicate, suc, done}
use ftl.Initfs.{File, files, trailer}
use ftl.Initfs.Hex.{to_hex}
use ftl.Initfs.Entries.{Entries, footprint, archive_reads}
use ftl.Initfs.Archive.{Entry, IsArchive, write_archive}
use ftl.Initfs.Archive.Read.{files-write}

abbrev entry : List ℕ → List ℕ → Entry
entry name contents = record {
  file = record { name = name; contents = contents };
  before = replicate 48 b'1';
  between = replicate 32 b'2';
  after = replicate 8 b'3';
}

abbrev hello : Entry
hello = entry (b'h' ∷ b'i' ∷ []) (1 ∷ 2 ∷ 3 ∷ 4 ∷ 5 ∷ [])

abbrev empty : Entry
empty = entry (b'e' ∷ []) []

abbrev last : Entry
last = entry trailer []

abbrev two_files : List Entry
two_files = hello ∷ empty ∷ []

two_files-IsArchive : IsArchive two_files last
two_files-IsArchive = record {
  forms = (
    record {
      before = refl;
      between = refl;
      after = refl;
      name = omega arith;
      contents = omega arith;
    },
    (
      record {
        before = refl;
        between = refl;
        after = refl;
        name = omega arith;
        contents = omega arith;
      },
      tt,
    ),
  );
  names = (refl, (refl, tt));
  last_form = record {
    before = refl;
    between = refl;
    after = refl;
    name = omega arith;
    contents = omega arith;
  };
  last_name = refl;
}

length-two_files : length (write_archive false two_files last []) ≡ 360
unfolding write_archive to_hex
length-two_files = refl

files-write_example :
    files 3 (record { file = write_archive false two_files last []; offset = 0 })
    ≡ done (some (hello.file ∷ empty.file ∷ []))
files-write_example =
    files-write false two_files last [] two_files-IsArchive (omega (arith, length-two_files))

archive_reads_example :
    (fs : List File) × (files
        (suc (length (write_archive false two_files last [])))
        (record { file = write_archive false two_files last []; offset = 0 })
      ≡ done (some fs))
    × Entries (write_archive false two_files last []) 0 fs
    × (footprint fs ≤ length (write_archive false two_files last []))
archive_reads_example =
    archive_reads (write_archive false two_files last []) (omega (arith, length-two_files))
