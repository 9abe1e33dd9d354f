-- ===== src/Elf.antt =====
-- libs/rust/ftl_elf/src/lib.rs: the headers of a 64-bit ELF file and their parser. The buffer is its address and its bytes. A
-- cast of a pointer to a structure is read field by field, after the check of the debug build that the pointer is aligned.
pub mod Parse
pub mod Outcome
use ftl.Base.{
  ℕ, zero, suc, ◌+◌, ◌*◌, ◌/◌, ◌%◌, ◌^◌, ltb, ◌==◌, if◌then◌else◌, Bool, not, List, [], ◌∷◌, length,
  bit_and, Exec, assert,
}
use ftl.Base.Word.{add, mul}
use ftl.Base.Bytes.{bytes_at, word_at}
use ftl.Base.Fallible.{Fallible, ◌>>=◌, ◌>>◌, return, fail, lift}
use ftl.Initfs.{same_bytes}

pub record Ehdr : Type 0 where
  pub e_ident : List ℕ
  pub e_type : ℕ
  pub e_machine : ℕ
  pub e_version : ℕ
  pub e_entry : ℕ
  pub e_phoff : ℕ
  pub e_shoff : ℕ
  pub e_flags : ℕ
  pub e_ehsize : ℕ
  pub e_phentsize : ℕ
  pub e_phnum : ℕ
  pub e_shentsize : ℕ
  pub e_shnum : ℕ
  pub e_shstrndx : ℕ

pub record Phdr : Type 0 where
  pub p_type : ℕ
  pub p_flags : ℕ
  pub p_offset : ℕ
  pub p_vaddr : ℕ
  pub p_paddr : ℕ
  pub p_filesz : ℕ
  pub p_memsz : ℕ
  pub p_align : ℕ

-- `size_of` the two.
abbrev pub ehdr_size : ℕ
ehdr_size = 64

abbrev pub phdr_size : ℕ
phdr_size = 56

abbrev pub em_native : ℕ
em_native = 62

abbrev pub et_exec : ℕ
et_exec = 2

abbrev pub et_dyn : ℕ
et_dyn = 3

-- `PhdrType`
abbrev pub pt_load : ℕ
pt_load = 1

abbrev pub pt_dynamic : ℕ
pt_dynamic = 2

unfoldable pub readable : Phdr → Bool
readable p = not (bit_and p.p_flags 4 == 0)

unfoldable pub writable : Phdr → Bool
writable p = not (bit_and p.p_flags 2 == 0)

unfoldable pub executable : Phdr → Bool
executable p = not (bit_and p.p_flags 1 == 0)

pub data ParseError : Type 0 where
  buffer_too_short invalid_magic invalid_etype : ParseError
  invalid_machine invalid_ehdr_size invalid_phdr_size : ParseError

pub record Elf : Type 0 where
  pub ehdr : Ehdr
  pub phdrs : List Phdr

-- The check on a reference or a slice made of a pointer to `Ehdr`, `Phdr`, `Dyn` or `Rela`, which have 64-bit fields.
abbrev pub check_aligned : ℕ → Exec (Unit {0})
check_aligned ptr = assert (ptr % 8 == 0)

-- `&*(buf.as_ptr() as *const Ehdr)`
unfoldable pub read_ehdr : List ℕ → Ehdr
read_ehdr buf = record {
  e_ident = bytes_at buf 0 16;
  e_type = word_at buf 16 2;
  e_machine = word_at buf 18 2;
  e_version = word_at buf 20 4;
  e_entry = word_at buf 24 8;
  e_phoff = word_at buf 32 8;
  e_shoff = word_at buf 40 8;
  e_flags = word_at buf 48 4;
  e_ehsize = word_at buf 52 2;
  e_phentsize = word_at buf 54 2;
  e_phnum = word_at buf 56 2;
  e_shentsize = word_at buf 58 2;
  e_shnum = word_at buf 60 2;
  e_shstrndx = word_at buf 62 2;
}

unfoldable pub read_phdr : List ℕ → ℕ → Phdr
read_phdr buf at = record {
  p_type = word_at buf at 4;
  p_flags = word_at buf (at + 4) 4;
  p_offset = word_at buf (at + 8) 8;
  p_vaddr = word_at buf (at + 16) 8;
  p_paddr = word_at buf (at + 24) 8;
  p_filesz = word_at buf (at + 32) 8;
  p_memsz = word_at buf (at + 40) 8;
  p_align = word_at buf (at + 48) 8;
}

-- `slice::from_raw_parts` of `n` program headers.
unfoldable pub read_phdrs : List ℕ → ℕ → ℕ → List Phdr
unfolding read_phdr
read_phdrs buf at zero = []
read_phdrs buf at (suc n) = read_phdr buf at ∷ read_phdrs buf (at + phdr_size) n

abbrev pub magic : List ℕ
magic = 0x7f ∷ b'E' ∷ b'L' ∷ b'F' ∷ []

-- The checks of `parse` on the header itself.
unfoldable pub check_ehdr : Ehdr → ℕ → Fallible (Unit {0}) ParseError
check_ehdr ehdr expected_type =
    if not (same_bytes (bytes_at ehdr.e_ident 0 4) magic)
    then fail invalid_magic
    else if not (ehdr.e_type == expected_type)
    then fail invalid_etype
    else if not (ehdr.e_machine == em_native)
    then fail invalid_machine
    else if not (ehdr.e_ehsize == ehdr_size)
    then fail invalid_ehdr_size
    else if not (ehdr.e_phentsize == phdr_size)
    then fail invalid_phdr_size
    else return tt

-- The program headers, of a buffer at `base`. The slice is not longer than the buffer, so that its size needs no check.
unfoldable pub parse_phdrs : ℕ → List ℕ → Ehdr → Fallible Elf ParseError
parse_phdrs base buf ehdr = do
  phdrs_size ← lift (mul ehdr.e_phnum phdr_size)
  end ← lift (add ehdr.e_phoff phdrs_size)
  if ltb (length buf) end
      then fail buffer_too_short
      else (lift (check_aligned (base + ehdr.e_phoff))
          >> return (record { ehdr = ehdr; phdrs = read_phdrs buf ehdr.e_phoff ehdr.e_phnum }))

unfoldable pub parse : ℕ → List ℕ → ℕ → Fallible Elf ParseError
parse base buf expected_type =
    if ltb (length buf) ehdr_size
    then fail buffer_too_short
    else (lift (check_aligned base)
        >> (check_ehdr (read_ehdr buf) expected_type >> parse_phdrs base buf (read_ehdr buf)))

-- `Rela::r_sym` and `Rela::r_type`
pub record Rela : Type 0 where
  pub r_offset : ℕ
  pub r_info : ℕ
  pub r_addend : ℕ

unfoldable pub r_sym : Rela → ℕ
r_sym r = r.r_info / 2 ^ 32 % 2 ^ 32

unfoldable pub r_type : Rela → ℕ
r_type r = r.r_info % 2 ^ 32
