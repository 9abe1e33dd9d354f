-- ===== src/Tests/Boots.antt =====
-- The parsers of boot information on small memories, and the saved registers.
use ftl.Base.{
  ℕ, ◌+◌, ◌<◌, ◌≡◌, refl, arith, ◌⊎◌, true, none, some, List, [], ◌∷◌, ◌++◌, length, take, map,
  done, replicate,
}
use ftl.Base.Bytes.{to_le_bytes, from_le_bytes, write_fields}
use ftl.Base.Ram.{Ram, store, load}
use ftl.Base.Held.{holds, holds-Holds}
use ftl.Arch.Direct.{kernel_base, paddr2vaddr}
use ftl.Arch.Pvh.{HvmStartInfo, HvmModuleEntry, HvmMemoryMapEntry, magic, parse_start_info}
use ftl.Arch.Pvh.Format.{
  IsBootable, info_fields, module_fields, memory_fields, write_all, region_of, free_of,
  parse_start_info_lem,
}
use ftl.Arch.Pvh.Frames.{InSomeEntry, start_info_frames}
use ftl.Memory.Visit.{Range, range, direct_map_end}
use ftl.Memory.Visit.Exact.{In, InSome}
use ftl.Memory.Page.{PageAllocator, zeroed}
use ftl.Memory.Page.Frames.{Separate}
use ftl.Memory.Page.Runs.{alloc_all}
use ftl.Memory.Init.{BootInfo, init}
use ftl.Memory.Init.Safe.{RamSeparate}
use ftl.Arch.Multiboot.{MemoryMapEntry, parse_tags, parse_multiboot2_info}
use ftl.Arch.Multiboot.Format.{
  Tag, write_tags, line_of, modules_of, rams_of, body_of, write_tag, write_entries,
}
use ftl.Arch.Multiboot.Parse.{parse_multiboot2_info_lem, parse_tags-stuck}
use ftl.Arch.Registers as Saved
use ftl.Arch.Registers.{ContextKind, ContextData}
use ftl.Thread
use ftl.Thread.Context.{Accepts, Refuses, context_lem}

abbrev info : HvmStartInfo
info = record {
  magic = magic;
  version = 1;
  flags = 0;
  nr_modules = 1;
  modlist_paddr = 0x1040;
  cmdline_paddr = 0x1038;
  rsdp_paddr = 0;
  memmap_paddr = 0x1060;
  memmap_entries = 2;
  reserved = 0;
}

abbrev initfs_module : HvmModuleEntry
initfs_module = record { paddr = 0x200000; size = 0x3000; cmdline_paddr = 0; reserved = 0 }

abbrev low_ram : HvmMemoryMapEntry
low_ram = record { addr = 0x100000; size = 0x7f00000; mem_type = 1; reserved = 0 }

abbrev rom : HvmMemoryMapEntry
rom = record { addr = 0xfffc0000; size = 0x40000; mem_type = 2; reserved = 0 }

abbrev line : List ℕ
line = b'h' ∷ b'i' ∷ []

abbrev pvh_memory : Ram
pvh_memory =
    store (λ _. 0) (kernel_base + 0x1000)
      ((magic ++ write_fields (info_fields info))
        ++ ((line ++ replicate 6 0)
            ++ (write_all module_fields (initfs_module ∷ [])
                ++ write_all memory_fields (low_ram ∷ rom ∷ []))))

info_held : holds pvh_memory (paddr2vaddr 0x1000) (magic ++ write_fields (info_fields info)) ≡ true
unfolding holds store write_fields to_le_bytes paddr2vaddr write_all
info_held = refl

line_held : holds pvh_memory (paddr2vaddr 0x1038) (line ++ (0 ∷ [])) ≡ true
unfolding holds store write_fields to_le_bytes paddr2vaddr write_all
line_held = refl

modules_held :
    holds pvh_memory (paddr2vaddr 0x1040) (write_all module_fields (initfs_module ∷ [])) ≡ true
unfolding holds store write_fields to_le_bytes paddr2vaddr write_all
modules_held = refl

memory_held :
    holds pvh_memory (paddr2vaddr 0x1060) (write_all memory_fields (low_ram ∷ rom ∷ [])) ≡ true
unfolding holds store write_fields to_le_bytes paddr2vaddr write_all
memory_held = refl

pvh_memory-IsBootable :
    IsBootable 100 pvh_memory 0x1000 info line (initfs_module ∷ []) (low_ram ∷ rom ∷ [])
pvh_memory-IsBootable = record {
  magic_number = refl;
  info =
      holds-Holds pvh_memory (paddr2vaddr 0x1000) (magic ++ write_fields (info_fields info))
        info_held;
  info_fit = omega arith;
  cmdline_there = omega arith;
  cmdline_held = holds-Holds pvh_memory (paddr2vaddr 0x1038) (line ++ (0 ∷ [])) line_held;
  cmdline_bytes = omega arith;
  cmdline_short = omega arith;
  num_modules = refl;
  modules_held =
      holds-Holds pvh_memory (paddr2vaddr 0x1040) (write_all module_fields (initfs_module ∷ []))
        modules_held;
  modules_fit = omega arith;
  num_entries = refl;
  memory_held =
      holds-Holds pvh_memory (paddr2vaddr 0x1060) (write_all memory_fields (low_ram ∷ rom ∷ []))
        memory_held;
  memory_fit = omega arith;
}

parse_start_info_lem_example :
    parse_start_info 100 pvh_memory 0x1000
    ≡ done (
        some (record {
          cmdline = line;
          modules = take 8 (map region_of (initfs_module ∷ []));
          free_rams = take 8 (free_of (low_ram ∷ rom ∷ []));
        }))
parse_start_info_lem_example =
    parse_start_info_lem 100 pvh_memory 0x1000 info line (initfs_module ∷ []) (low_ram ∷ rom ∷ [])
      pvh_memory-IsBootable

abbrev kernel : Range
kernel = range 0x100000 0x140000

start_info_frames_example :
    (bootinfo : BootInfo) × (p : PageAllocator) × (frames : List Range) × (p' : PageAllocator)
    × (ram' : Ram) × (parse_start_info 100 pvh_memory 0x1000 ≡ done (some bootinfo))
    × (init kernel bootinfo ≡ done p)
    × (alloc_all p pvh_memory (record { len = 0x2000; page_type = zeroed } ∷ [])
        ≡ done (frames, p', ram'))
    × ((x : ℕ)
        → (InSome x frames
            → InSomeEntry x (low_ram ∷ rom ∷ [])
              × (x < direct_map_end)
              × (¬ (In x kernel))
              × (¬ (InSome x (take 8 (map region_of (initfs_module ∷ []))))))
          × (RamSeparate x (free_of (low_ram ∷ rom ∷ [])) → Separate x frames))
start_info_frames_example =
    start_info_frames kernel 100 pvh_memory 0x1000 info line (initfs_module ∷ [])
      (low_ram ∷ rom ∷ []) (record { len = 0x2000; page_type = zeroed } ∷ []) (omega arith)
      pvh_memory-IsBootable ((omega arith, refl), tt)

-- The tags of a Multiboot2 loader.
abbrev available_ram : MemoryMapEntry
available_ram = record { base_addr = 0x100000; length_of = 0x7f00000; mem_type = 1; reserved = 0 }

abbrev tags : List Tag
tags =
    Tag.cmdline line
    ∷ Tag.module_range 0x200000 0x203000 (b'x' ∷ 0 ∷ [])
    ∷ Tag.memory_map (available_ram ∷ record available_ram { mem_type = 2 } ∷ [])
    ∷ Tag.other 0 []
    ∷ []

abbrev info_bytes : List ℕ
info_bytes = write_fields ((4, 8 + length (write_tags tags)) ∷ (4, 0) ∷ []) ++ write_tags tags

abbrev multiboot_memory : Ram
multiboot_memory = store (λ _. 0) (kernel_base + 0x9000) info_bytes

tags_size : 8 + length (write_tags tags) ≡ 120
unfolding write_tags write_tag body_of write_entries write_fields to_le_bytes
tags_size = refl

tags_held : holds multiboot_memory (paddr2vaddr 0x9000) info_bytes ≡ true
unfolding holds store write_tags write_tag body_of write_entries write_fields to_le_bytes
    paddr2vaddr
tags_held = refl

parse_multiboot2_info_lem_example :
    parse_multiboot2_info 5 multiboot_memory 0x9000
    ≡ done (
        some (record {
          cmdline = line_of tags [];
          modules = take 8 (modules_of tags);
          free_rams = take 8 (rams_of tags);
        }))
parse_multiboot2_info_lem_example =
    parse_multiboot2_info_lem tags 5 0 multiboot_memory 0x9000 (omega (arith, tags_size))
      (omega (arith, tags_size)) (omega arith)
      (holds-Holds multiboot_memory (paddr2vaddr 0x9000) info_bytes tags_held) (omega arith)

-- A memory of zeros.
parse_tags-stuck_example :
    parse_tags 1000 (λ _. 0) 0x9000 64 8 (record { cmdline = []; modules = []; free_rams = [] })
    ≡ done none
parse_tags-stuck_example =
    parse_tags-stuck 1000 (λ _. 0) 0x9000 64 8
      (record { cmdline = []; modules = []; free_rams = [] }) 0 (omega arith)
      (unfold load from_le_bytes in refl) (unfold load from_le_bytes in refl) (omega arith)
      (omega arith) (omega arith)

abbrev arguments : ContextData
arguments = record { n = 1; arg0 = 2; arg1 = 3; arg2 = 4; arg3 = 5; arg4 = 6; arg5 = 7 }

context_lem_example :
    Accepts Thread.new Saved.new ContextKind.syscall_args arguments (record arguments { n = 9 })
    ⊎ Refuses Thread.new Saved.new ContextKind.syscall_args arguments
context_lem_example =
    context_lem Thread.new Saved.new ContextKind.syscall_args arguments (record arguments { n = 9 })
