-- ===== src/Loader.antt =====
-- kernel/src/loader.rs: loading a position-independent ELF file into pages of the kernel, and its relocations. The image is
-- the memory from its first byte on, so that what is read past its end is whatever stands there. A slice made of a pointer
-- is checked as `slice::from_raw_parts` checks it in the debug build: it is aligned, and at most `isize::MAX` long.
pub mod Segments
pub mod Relocations
use ftl.Base.{
  ℕ, zero, suc, ◌+◌, ◌-◌, ◌*◌, ◌/◌, ◌%◌, ◌^◌, max, ltb, leb, ◌==◌, if◌then◌else◌, not, ◌&&◌, ◌||◌,
  Bool, true, false, Option, none, some, List, [], ◌∷◌, length, replicate, Exec, done, panic,
  assert, Result, ok, err,
}
use ftl.Base
use ftl.Base.Word.{usize_mod, add, sub, checked_add}
use ftl.Base.Bytes.{to_le_bytes, from_le_bytes, bytes_at}
use ftl.Base.Fallible.{Fallible, ◌>>=◌, return, fail, lift, ok_or}
use ftl.Base.Ram.{Ram, store, load}
use ftl.Align.{align_up}
use ftl.Arch.Direct.{min_page_size, paddr2vaddr}
use ftl.Elf.{Phdr, Elf, Rela, et_dyn, pt_load, pt_dynamic, parse, r_sym, r_type}
use ftl.Memory.Page
use ftl.Memory.Page.{PageAllocator, zeroed}

abbrev pub dt_null : ℕ
dt_null = 0

abbrev pub dt_rela : ℕ
dt_rela = 7

abbrev pub dt_relasz : ℕ
dt_relasz = 8

abbrev pub r_x86_64_relative : ℕ
r_x86_64_relative = 8

-- `size_of` of `Dyn` and of `Rela`
abbrev pub dyn_size : ℕ
dyn_size = 16

abbrev pub rela_entry_size : ℕ
rela_entry_size = 24

pub data Error : Type 0 where
  parse_elf out_of_memory bad_reloc_type bad_reloc_offset bad_reloc_size : Error

-- `image` and `entry_fn` are addresses; `contents` is the memory from `image` on.
pub record LoadedElf : Type 0 where
  pub image : ℕ
  pub entry_fn : ℕ
  pub contents : Ram

-- The end of the image.
unfoldable pub image_end : List Phdr → ℕ → Exec ℕ
image_end [] image_size = done image_size
image_end (p ∷ ps) image_size = elim (p.p_type == pt_load) [
  | true ↦ Base.◌>>=◌ (add p.p_vaddr p.p_memsz) (λ end. image_end ps (max image_size end))
  | false ↦ image_end ps image_size
]

-- The check of `[from..to]` on a slice of `len` bytes.
abbrev pub check_range : ℕ → ℕ → ℕ → Exec (Unit {0})
check_range len from to = assert (leb from to && leb to len)

-- The part behind the file's bytes.
unfoldable pub zero_rest : ℕ → Ram → Phdr → Exec Ram
zero_rest image_size image p = Base.◌>>=◌ (add p.p_vaddr p.p_filesz) λ zeroed_off.
    Base.◌>>=◌ (sub p.p_memsz p.p_filesz) λ zeroed_len.
      if ltb 0 zeroed_len
      then (Base.◌>>=◌ (add zeroed_off zeroed_len) λ zeroed_end.
          Base.◌>>=◌ (check_range image_size zeroed_off zeroed_end)
            λ _. done (store image zeroed_off (replicate zeroed_len 0)))
      else done image

-- The body of the loop that loads the segments.
unfoldable pub load_segment : List ℕ → ℕ → Ram → Phdr → Exec Ram
load_segment elf_file image_size image p = Base.◌>>=◌ (add p.p_offset p.p_filesz) λ src_end.
    Base.◌>>=◌ (check_range (length elf_file) p.p_offset src_end) λ _.
      Base.◌>>=◌ (add p.p_vaddr p.p_filesz) λ dst_end.
        Base.◌>>=◌ (check_range image_size p.p_vaddr dst_end) λ _.
          zero_rest image_size (store image p.p_vaddr (bytes_at elf_file p.p_offset p.p_filesz)) p

unfoldable pub load_segments : List Phdr → List ℕ → ℕ → Ram → Exec Ram
load_segments [] elf_file image_size image = done image
load_segments (p ∷ ps) elf_file image_size image = elim (p.p_type == pt_load) [
  | true ↦
      Base.◌>>=◌ (load_segment elf_file image_size image p)
        (λ image'. load_segments ps elf_file image_size image')
  | false ↦ load_segments ps elf_file image_size image
]

abbrev word : Ram → ℕ → ℕ
word image at = from_le_bytes (load image at 8)

-- The loop over the entries of a dynamic section: `found` is `rela_addr` and `rela_size`.
unfoldable pub scan_dynamic : ℕ → Ram → ℕ → ℕ × ℕ → ℕ × ℕ
scan_dynamic zero image at found = found
scan_dynamic (suc n) image at (rela_addr, rela_size) =
    let value = word image (at + 8) in
    elim (word image at == dt_null) [
      | true ↦ (rela_addr, rela_size)
      | false ↦ scan_dynamic n image (at + dyn_size) (
          if word image at == dt_rela
          then (value, rela_size)
          else if word image at == dt_relasz
          then (rela_addr, value)
          else (rela_addr, rela_size))
    ]

-- The checks on a slice of `size` bytes at an address.
abbrev pub check_slice : ℕ → ℕ → Exec (Unit {0})
check_slice ptr size = assert (ptr % 8 == 0 && ltb size (2 ^ 63))

-- `base` is the address of the image.
unfoldable pub find_rela : ℕ → List Phdr → Ram → ℕ × ℕ → Exec (ℕ × ℕ)
find_rela base [] image found = done found
find_rela base (p ∷ ps) image found = elim (p.p_type == pt_dynamic) [
  | true ↦
      Base.◌>>=◌ (check_slice (base + p.p_vaddr) (p.p_memsz / dyn_size * dyn_size))
        λ _. find_rela base ps image (scan_dynamic (p.p_memsz / dyn_size) image p.p_vaddr found)
  | false ↦ find_rela base ps image found
]

unfoldable pub read_rela : Ram → ℕ → Rela
read_rela image at = record {
  r_offset = word image at;
  r_info = word image (at + 8);
  r_addend = word image (at + 16);
}

-- The checks of one relocation; the result is `target_end`.
unfoldable pub check_relocation : ℕ → Rela → Result ℕ Error
check_relocation image_size rela =
    if not (r_sym rela == 0)
    then err bad_reloc_type
    else if not (r_type rela == r_x86_64_relative)
    then err bad_reloc_type
    else elim (checked_add rela.r_offset 8) [
      | none ↦ err bad_reloc_offset
      | some target_end ↦ if leb target_end image_size then ok target_end else err bad_reloc_offset
    ]

-- The value that is written there.
abbrev pub relocated : ℕ → Rela → List ℕ
relocated base rela = to_le_bytes 8 ((base + rela.r_addend) % usize_mod)

-- The loop over the relocations, of which `left` are left from `at` on.
unfoldable pub apply_relocations : ℕ → ℕ → ℕ → ℕ → Ram → Fallible Ram Error
apply_relocations zero base image_size at image = return image
apply_relocations (suc left) base image_size at image =
    elim (check_relocation image_size (read_rela image at)) [
      | err e ↦ fail e
      | ok target_end ↦
          let rela = read_rela image at in
          lift (check_range image_size rela.r_offset target_end) >>= λ _.
          apply_relocations left base image_size (at + rela_entry_size)
            (store image rela.r_offset (relocated base rela))
    ]

unfoldable pub relocate : ℕ → ℕ → ℕ × ℕ → Ram → Fallible Ram Error
relocate base image_size (rela_addr, rela_size) image =
    if not (rela_addr == 0) && ltb 0 rela_size
    then (if not (rela_size % rela_entry_size == 0)
        then fail bad_reloc_size
        else (lift (check_slice (base + rela_addr) rela_size) >>= λ _.
            apply_relocations (rela_size / rela_entry_size) base image_size rela_addr image))
    else return image

abbrev or_parse_elf : {A E : Type 0} → Fallible A E → Fallible A Error
or_parse_elf (done (ok a)) = return a
or_parse_elf (done (err e)) = fail parse_elf
or_parse_elf panic = panic

-- `ram` is the memory of the kernel, and `elf_at` the address of the file; the result has what it and the page allocator become.
unfoldable pub load_elf :
    PageAllocator → Ram → ℕ → List ℕ → Fallible (LoadedElf × PageAllocator) Error
load_elf pool ram elf_at elf_file = do
  elf ← or_parse_elf (parse elf_at elf_file et_dyn)
  end ← lift (image_end elf.phdrs 0)
  image_size ← lift (align_up end min_page_size)
  (paddr, pool', ram') ← lift (Page.alloc pool ram image_size zeroed)
  image_paddr ← ok_or paddr out_of_memory
  let base = paddr2vaddr image_paddr
  image ← lift (load_segments elf.phdrs elf_file image_size (λ x. ram' (base + x)))
  found ← lift (find_rela base elf.phdrs image (0, 0))
  image' ← relocate base image_size found image
  return (record { image = base; entry_fn = base + elf.ehdr.e_entry; contents = image' }, pool')
