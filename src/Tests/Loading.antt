-- ===== src/Tests/Loading.antt =====
-- The loader on small files.
use ftl.Base.{map, ℕ, ◌≡◌, refl, arith, List, [], ◌∷◌, ◌++◌, done}
use ftl.Base.Bytes.{to_le_bytes, from_le_bytes}
use ftl.Base.Fallible.{return}
use ftl.Base.Ram.{Ram, store, load}
use ftl.Elf.{Phdr, r_sym, r_type}
use ftl.Loader.{load_segments, relocate, apply_relocations, check_relocation, read_rela}
use ftl.Loader.Segments.{segment_byte, image_byte, load_segments_lem}
use ftl.Loader.Relocations.{Inside, relocate-Inside}

abbrev four_bytes : List ℕ
four_bytes = 11 ∷ 12 ∷ 13 ∷ 14 ∷ []

abbrev filled : Phdr
filled = record {
  p_type = 1;
  p_flags = 6;
  p_offset = 1;
  p_vaddr = 2;
  p_paddr = 2;
  p_filesz = 2;
  p_memsz = 4;
  p_align = 1;
}

abbrev note : Phdr
note = record filled { p_type = 4; p_offset = 100 }

abbrev old_image : Ram
old_image x = 9

data_bytes :
    map (λ x. image_byte four_bytes (filled ∷ note ∷ []) x 9) (1 ∷ 2 ∷ 3 ∷ 4 ∷ 5 ∷ 6 ∷ [])
    ≡ 9 ∷ 12 ∷ 13 ∷ 0 ∷ 0 ∷ 9 ∷ []
unfolding image_byte segment_byte
data_bytes = refl

load_segments_lem_example :
    (image' : Ram) × (load_segments (filled ∷ note ∷ []) four_bytes 16 old_image ≡ done image')
    × ((x : ℕ) → image' x ≡ image_byte four_bytes (filled ∷ note ∷ []) x (old_image x))
load_segments_lem_example =
    load_segments_lem (filled ∷ note ∷ []) four_bytes 16 old_image (omega arith) (omega arith) (
      λ _. record { in_file = omega arith; in_segment = omega arith; in_image = omega arith },
      (λ e. absurd (omega arith), tt),
    )

-- A relocation of the word at 8, in a table at 16.
abbrev one_relocation : Ram
one_relocation = store (λ _. 0) 16 (to_le_bytes 8 8 ++ to_le_bytes 8 8 ++ to_le_bytes 8 5)

relocated_word :
    relocate 0x1000 64 (16, 24) one_relocation
    ≡ return (store one_relocation 8 (to_le_bytes 8 0x1005))
unfolding relocate apply_relocations check_relocation read_rela r_sym r_type store load to_le_bytes
    from_le_bytes
relocated_word = refl

relocate-Inside_example : Inside 64 one_relocation (relocate 0x1000 64 (16, 24) one_relocation)
relocate-Inside_example =
    relocate-Inside 0x1000 64 16 24 one_relocation refl (omega arith) (omega arith)
