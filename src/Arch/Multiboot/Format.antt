-- ===== src/Arch/Multiboot/Format.antt =====
-- Boot information in the format of Multiboot2, and how kernel/src/arch/x64/multiboot.rs steps through it.
use ftl.Base.{
  ℕ, ◌+◌, ◌-◌, ◌*◌, ◌/◌, ◌==◌, ◌≢◌, ◌<◌, ◌^◌, if◌then◌else◌, List, [], ◌∷◌, ◌++◌, length, replicate,
  All,
}
use ftl.Base.Bytes.{write_fields}
use ftl.Elf.Parse.{Fit}
use ftl.Memory.Visit.{Range, range}
use ftl.Memory.Init.{FreeRam}
use ftl.Arch.Multiboot.{MemoryMapEntry}

-- A module has a string behind its range; a memory map has entries of 24 bytes.
pub data Tag : Type 0 where
  cmdline : List ℕ → Tag
  module_range : ℕ → ℕ → List ℕ → Tag
  memory_map : List MemoryMapEntry → Tag
  other : ℕ → List ℕ → Tag

abbrev pub entry_fields : MemoryMapEntry → List (ℕ × ℕ)
entry_fields e = (8, e.base_addr) ∷ (8, e.length_of) ∷ (4, e.mem_type) ∷ (4, e.reserved) ∷ []

unfoldable pub write_entries : List MemoryMapEntry → List ℕ
write_entries [] = []
write_entries (e ∷ es) = write_fields (entry_fields e) ++ write_entries es

abbrev pub type_of : Tag → ℕ
type_of (cmdline line) = 1
type_of (module_range start end name) = 3
type_of (memory_map entries) = 6
type_of (other n body) = n

unfoldable pub body_of : Tag → List ℕ
body_of (cmdline line) = line ++ (0 ∷ [])
body_of (module_range start end name) = write_fields ((4, start) ∷ (4, end) ∷ []) ++ name
body_of (memory_map entries) = write_fields ((4, 24) ∷ (4, 0) ∷ []) ++ write_entries entries
body_of (other n body) = body

abbrev pub size_of : Tag → ℕ
size_of t = 8 + length (body_of t)

abbrev pub padded : ℕ → ℕ
padded size = (size + 7) / 8 * 8

abbrev pub header_of : Tag → List ℕ
header_of t = write_fields ((4, type_of t) ∷ (4, size_of t) ∷ [])

unfoldable pub write_tag : Tag → List ℕ
write_tag t = (header_of t ++ body_of t) ++ replicate (padded (size_of t) - size_of t) 0

unfoldable pub write_tags : List Tag → List ℕ
write_tags [] = []
write_tags (t ∷ ts) = write_tag t ++ write_tags ts

-- The numbers of a tag fit, a command line has no zero byte, and an other tag has another type.
abbrev pub IsTag : Tag → Type 0
IsTag (cmdline line) = All (λ b. b ≢ 0) line
IsTag (module_range start end name) = (start < 2 ^ 32) × (end < 2 ^ 32)
IsTag (memory_map entries) = All (λ e. Fit (entry_fields e)) entries
IsTag (other n body) = (n < 2 ^ 32) × (n ≢ 1) × (n ≢ 3) × (n ≢ 6)

-- What the tags say: the last command line, the modules and the RAM in their order.
unfoldable pub available : List MemoryMapEntry → List FreeRam
available [] = []
available (e ∷ es) =
    if e.mem_type == 1
    then record { addr = e.base_addr; size = e.length_of } ∷ available es
    else available es

unfoldable pub line_of : List Tag → List ℕ → List ℕ
line_of [] line = line
line_of (cmdline new ∷ ts) line = line_of ts new
line_of (module_range start end name ∷ ts) line = line_of ts line
line_of (memory_map entries ∷ ts) line = line_of ts line
line_of (other n body ∷ ts) line = line_of ts line

unfoldable pub modules_of : List Tag → List Range
modules_of [] = []
modules_of (module_range start end name ∷ ts) = range start end ∷ modules_of ts
modules_of (cmdline line ∷ ts) = modules_of ts
modules_of (memory_map entries ∷ ts) = modules_of ts
modules_of (other n body ∷ ts) = modules_of ts

unfoldable pub rams_of : List Tag → List FreeRam
rams_of [] = []
rams_of (memory_map entries ∷ ts) = available entries ++ rams_of ts
rams_of (cmdline line ∷ ts) = rams_of ts
rams_of (module_range start end name ∷ ts) = rams_of ts
rams_of (other n body ∷ ts) = rams_of ts
