-- ===== src/Tests/Elves.antt =====
-- The ELF parser on a small file.
use ftl.Base.{ℕ, ◌≡◌, ◌≢◌, ◌%◌, ◌⊎◌, refl, arith, replicate, List, [], ◌∷◌, length, done, panic, ok}
use ftl.Base.Word.{IsUsize}
use ftl.Base.Bytes.{write_fields}
use ftl.Elf.{Ehdr, Phdr, Elf, et_exec, em_native, parse, read_ehdr}
use ftl.Elf.Parse.{write_ehdr, write_phdrs, write_elf, IsElf, parse-write_elf}
use ftl.Elf.Outcome.{IsNative, IsAccepted, Rejects, BadTable, parse_outcome}

abbrev pub small_header : Ehdr
small_header = record {
  e_ident = 0x7f ∷ b'E' ∷ b'L' ∷ b'F' ∷ replicate 12 2;
  e_type = et_exec;
  e_machine = em_native;
  e_version = 1;
  e_entry = 0x401000;
  e_phoff = 72;
  e_shoff = 0;
  e_flags = 0;
  e_ehsize = 64;
  e_phentsize = 56;
  e_phnum = 1;
  e_shentsize = 0;
  e_shnum = 0;
  e_shstrndx = 0;
}

abbrev text : Phdr
text = record {
  p_type = 1;
  p_flags = 5;
  p_offset = 0;
  p_vaddr = 0x400000;
  p_paddr = 0x400000;
  p_filesz = 0x2000;
  p_memsz = 0x2345;
  p_align = 4096;
}

abbrev small_elf : Elf
small_elf = record { ehdr = small_header; phdrs = text ∷ [] }

small_elf-IsElf : IsElf small_elf (replicate 8 0)
small_elf-IsElf = record {
  ident = refl;
  magic_bytes = refl;
  machine = refl;
  ehsize = refl;
  phentsize = refl;
  phnum = refl;
  phoff = refl;
  fields = omega arith;
  phdr_fit = omega arith;
}

small_size : IsUsize (length (write_elf small_elf (replicate 8 0) (9 ∷ [])))
unfolding write_elf write_ehdr write_phdrs write_fields
small_size = omega arith

parse-write_elf_example :
    parse 0x1000 (write_elf small_elf (replicate 8 0) (9 ∷ [])) et_exec ≡ done (ok small_elf)
parse-write_elf_example =
    parse-write_elf 0x1000 small_elf (replicate 8 0) (9 ∷ []) small_elf-IsElf refl refl small_size

abbrev file : List ℕ
file = write_elf small_elf (replicate 8 0) (9 ∷ [])

parse_outcome_example :
    Rejects (parse 0x1004 file et_exec)
    ⊎ (((elf : Elf) × (parse 0x1004 file et_exec ≡ done (ok elf))
          × IsAccepted 0x1004 file et_exec elf)
        ⊎ ((parse 0x1004 file et_exec ≡ panic)
            × ((0x1004 % 8 ≢ 0)
                ⊎ (IsNative (read_ehdr file) et_exec × BadTable 0x1004 file (read_ehdr file)))))
parse_outcome_example = parse_outcome 0x1004 file et_exec
