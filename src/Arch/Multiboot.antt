-- ===== src/Arch/Multiboot.antt =====
-- kernel/src/arch/x64/multiboot.rs: the boot information of Multiboot2. The boot loader passes its address in 32 bits, so
-- that no sum of addresses and offsets here overflows.
pub mod Format
pub mod Parse
use ftl.Base.{
  ℕ, zero, suc, ◌+◌, ◌-◌, ◌*◌, ◌/◌, ltb, ◌==◌, if◌then◌else◌, not, Option, none, some, List, [],
  ◌∷◌, Exec, done, panic, ◌>>=◌, ◌>>◌, assert, true, false, bit_and,
}
use ftl.Base.Word.{complement}
use ftl.Base.Ram.{Ram, load}
use ftl.Base.Held.{word}
use ftl.Arch.Direct.{paddr2vaddr}
use ftl.Arch.Boot.{push_or_drop}
use ftl.Memory.Visit.{Range, range}
use ftl.Memory.Init.{FreeRam, BootInfo}

-- `size_of` the headers of the information, of a tag and of a memory map.
abbrev pub info_header_size : ℕ
info_header_size = 8

abbrev pub tag_header_size : ℕ
tag_header_size = 8

abbrev pub memory_map_header_size : ℕ
memory_map_header_size = 16

abbrev pub multiboot2_tag_cmdline : ℕ
multiboot2_tag_cmdline = 1

abbrev pub multiboot2_tag_module : ℕ
multiboot2_tag_module = 3

abbrev pub multiboot2_tag_memory_map : ℕ
multiboot2_tag_memory_map = 6

abbrev pub multiboot2_memory_available : ℕ
multiboot2_memory_available = 1

pub record MemoryMapEntry : Type 0 where
  pub base_addr : ℕ
  pub length_of : ℕ
  pub mem_type : ℕ
  pub reserved : ℕ

unfoldable pub read_entry : Ram → ℕ → MemoryMapEntry
read_entry ram at = record {
  base_addr = word ram at 8;
  length_of = word ram (at + 8) 8;
  mem_type = word ram (at + 16) 4;
  reserved = word ram (at + 20) 4;
}

-- The bytes before the first zero byte, or all of them.
unfoldable pub until_null : List ℕ → List ℕ
until_null [] = []
until_null (b ∷ bs) = if b == 0 then [] else b ∷ until_null bs

-- The loop over the entries of a memory map, of which the next stands at the physical address `at`.
unfoldable pub add_entries : ℕ → Ram → ℕ → ℕ → List FreeRam → List FreeRam
add_entries zero ram at entry_size free_rams = free_rams
add_entries (suc n) ram at entry_size free_rams =
    let entry = read_entry ram (paddr2vaddr at) in
    add_entries n ram (at + entry_size) entry_size (
      if entry.mem_type == multiboot2_memory_available
      then push_or_drop free_rams (record { addr = entry.base_addr; size = entry.length_of })
      else free_rams)

unfoldable pub add_memory_map : Ram → ℕ → ℕ → BootInfo → Exec BootInfo
add_memory_map ram at size b = do
  let entry_size = word ram (paddr2vaddr at + 8) 4
  assert (not (entry_size == 0))
  done (record b {
    free_rams =
        add_entries (size / entry_size) ram (at + memory_map_header_size) entry_size b.free_rams;
  })

unfoldable pub add_module : Ram → ℕ → BootInfo → BootInfo
add_module ram at b = record b {
  modules =
      push_or_drop b.modules
        (range (word ram (paddr2vaddr at + 8) 4) (word ram (paddr2vaddr at + 12) 4));
}

unfoldable pub set_cmdline : Ram → ℕ → ℕ → BootInfo → BootInfo
set_cmdline ram at size b = record b {
  cmdline = until_null (load ram (paddr2vaddr (at + tag_header_size)) (size - tag_header_size));
}

-- The match on the type of the tag at the physical address `at`.
unfoldable pub parse_tag : Ram → ℕ → ℕ → ℕ → BootInfo → Exec BootInfo
parse_tag ram at tag_type size b =
    if tag_type == multiboot2_tag_cmdline
    then done (set_cmdline ram at size b)
    else if tag_type == multiboot2_tag_memory_map
    then add_memory_map ram at size b
    else if tag_type == multiboot2_tag_module
    then done (add_module ram at b)
    else done b

-- The loop over the tags: `none` if they have not ended after `rounds` of them.
unfoldable pub parse_tags : ℕ → Ram → ℕ → ℕ → ℕ → BootInfo → Exec (Option BootInfo)
parse_tags zero ram info_addr total_size offset b = done none
parse_tags (suc rounds) ram info_addr total_size offset b = elim (ltb offset total_size) [
  | false ↦ done (some b)
  | true ↦
      let tag_type = word ram (paddr2vaddr (info_addr + offset)) 4 in
      let size = word ram (paddr2vaddr (info_addr + offset) + 4) 4 in
      parse_tag ram (info_addr + offset) tag_type size b >>= λ b'.
      parse_tags rounds ram info_addr total_size (offset + bit_and (size + 7) (complement 7)) b'
]

unfoldable pub parse_multiboot2_info : ℕ → Ram → ℕ → Exec (Option BootInfo)
parse_multiboot2_info rounds ram info_addr =
    parse_tags rounds ram info_addr (word ram (paddr2vaddr info_addr) 4) info_header_size
      (record { cmdline = []; modules = []; free_rams = [] })
