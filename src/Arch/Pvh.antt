-- ===== src/Arch/Pvh.antt =====
-- kernel/src/arch/x64/pvh.rs: the boot information of the PVH protocol.
pub mod Format
pub mod Frames
use ftl.Base.{
  ℕ, zero, suc, ◌+◌, ◌==◌, if◌then◌else◌, Option, none, some, List, [], ◌∷◌, Exec, done, panic,
  ◌>>=◌, ◌>>◌, assert, Bool, true, false, ◌&&◌,
}
use ftl.Base.Word.{add}
use ftl.Base.Ram.{Ram, load}
use ftl.Base.Held.{word}
use ftl.Arch.Direct.{paddr2vaddr}
use ftl.Arch.Boot.{push_or_drop}
use ftl.Memory.Visit.{Range, range}
use ftl.Memory.Init.{FreeRam, BootInfo}

pub record HvmStartInfo : Type 0 where
  pub magic : List ℕ
  pub version : ℕ
  pub flags : ℕ
  pub nr_modules : ℕ
  pub modlist_paddr : ℕ
  pub cmdline_paddr : ℕ
  pub rsdp_paddr : ℕ
  pub memmap_paddr : ℕ
  pub memmap_entries : ℕ
  pub reserved : ℕ

abbrev pub hvm_memmap_type_ram : ℕ
hvm_memmap_type_ram = 1

pub record HvmModuleEntry : Type 0 where
  pub paddr : ℕ
  pub size : ℕ
  pub cmdline_paddr : ℕ
  pub reserved : ℕ

pub record HvmMemoryMapEntry : Type 0 where
  pub addr : ℕ
  pub size : ℕ
  pub mem_type : ℕ
  pub reserved : ℕ

unfoldable pub read_start_info : Ram → ℕ → HvmStartInfo
read_start_info ram at = record {
  magic = load ram at 4;
  version = word ram (at + 4) 4;
  flags = word ram (at + 8) 4;
  nr_modules = word ram (at + 12) 4;
  modlist_paddr = word ram (at + 16) 8;
  cmdline_paddr = word ram (at + 24) 8;
  rsdp_paddr = word ram (at + 32) 8;
  memmap_paddr = word ram (at + 40) 8;
  memmap_entries = word ram (at + 48) 4;
  reserved = word ram (at + 52) 4;
}

unfoldable pub read_module : Ram → ℕ → HvmModuleEntry
read_module ram at = record {
  paddr = word ram at 8;
  size = word ram (at + 8) 8;
  cmdline_paddr = word ram (at + 16) 8;
  reserved = word ram (at + 24) 8;
}

unfoldable pub read_memory_map : Ram → ℕ → HvmMemoryMapEntry
read_memory_map ram at = record {
  addr = word ram at 8;
  size = word ram (at + 8) 8;
  mem_type = word ram (at + 16) 4;
  reserved = word ram (at + 20) 4;
}

-- The loop of `cstr2slice`, which has no bound: `none` if the string has not ended after `rounds` bytes.
unfoldable pub cstr_loop : ℕ → Ram → ℕ → Option (List ℕ)
cstr_loop zero ram at = none
cstr_loop (suc rounds) ram at = elim (ram at == 0) [
  | true ↦ some []
  | false ↦ elim (cstr_loop rounds ram (at + 1)) [ none ↦ none | some rest ↦ some (ram at ∷ rest) ]
]

unfoldable pub cstr2slice : ℕ → Ram → ℕ → Option (List ℕ)
cstr2slice rounds ram paddr =
    if paddr == 0 then some [] else cstr_loop rounds ram (paddr2vaddr paddr)

-- The loop over the `n` modules from `at` on.
unfoldable pub add_modules : ℕ → Ram → ℕ → List Range → Exec (List Range)
add_modules zero ram at modules = done modules
add_modules (suc n) ram at modules = do
  let m = read_module ram at
  end ← add m.paddr m.size
  add_modules n ram (at + 32) (push_or_drop modules (range m.paddr end))

-- The loop over the `n` entries of the memory map from `at` on.
unfoldable pub add_memory : ℕ → Ram → ℕ → List FreeRam → List FreeRam
add_memory zero ram at free_rams = free_rams
add_memory (suc n) ram at free_rams =
    let entry = read_memory_map ram at in
    add_memory n ram (at + 24) (
      if entry.mem_type == hvm_memmap_type_ram
      then push_or_drop free_rams (record { addr = entry.addr; size = entry.size })
      else free_rams)

abbrev pub magic : List ℕ
magic = b'x' ∷ 0xc5 ∷ b'n' ∷ b'3' ∷ []

unfoldable pub is_magic : List ℕ → Bool
is_magic (a ∷ b ∷ c ∷ d ∷ []) = a == b'x' && b == 0xc5 && c == b'n' && d == b'3'
is_magic _ = false

-- `none` if the command line does not end within `rounds` bytes.
unfoldable pub parse_start_info : ℕ → Ram → ℕ → Exec (Option BootInfo)
parse_start_info rounds ram start_info = do
  let info = read_start_info ram (paddr2vaddr start_info)
  assert (is_magic info.magic)
  (elim (cstr2slice rounds ram info.cmdline_paddr) [
    | none ↦ done none
    | some cmdline ↦ do
      modules ← add_modules info.nr_modules ram (paddr2vaddr info.modlist_paddr) []
      let free_rams = add_memory info.memmap_entries ram (paddr2vaddr info.memmap_paddr) []
      done (some (record { cmdline = cmdline; modules = modules; free_rams = free_rams }))
  ])
