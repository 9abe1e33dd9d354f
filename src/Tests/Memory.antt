-- ===== src/Tests/Memory.antt =====
-- kernel/src/memory.rs on a small machine: 1 MiB of low RAM, and the kernel and a module in the first
-- 16 MiB above it.
use mathlib.Core.List.{Perm}
use ftl.Base.{ℕ, ◌%◌, ◌≤◌, ◌<◌, ◌≡◌, ◌↔◌, refl, arith, min, List, [], ◌∷◌, map, All, done}
use ftl.Arch.Direct.{min_page_size}
use ftl.Memory.Visit.{Range, range, direct_map_end, visit_unused_regions}
use ftl.Memory.Visit.Exact.{InSome, visit_unused_regions-exact}
use ftl.Memory.Sort.{bubble_sort}
use ftl.Memory.Sort.Sorted.{greater, AscendBy, bubble_sort-sorts}
use ftl.Memory.Page.{PageAllocator, Ram, dirty, zeroed, add_region}
use ftl.Memory.Page.Frames.{span, Left, Separate}
use ftl.Memory.Page.Runs.{Request, alloc_all, alloc_all-Separate}
use ftl.Memory.Init.{BootInfo, init}
use ftl.Memory.Init.Safe.{IsBootable, Usable, RamSeparate, boot_frames-Usable}

abbrev kernel : Range
kernel = range 0x100000 0x140000

abbrev initfs : Range
initfs = range 0x200000 0x210000

abbrev bootinfo : BootInfo
bootinfo = record {
  cmdline = [];
  modules = initfs ∷ [];
  free_rams =
      record { addr = 0; size = 0x9f000 } ∷ record { addr = 0x100000; size = 0xf00000 } ∷ [];
}

abbrev requests : List Request
requests =
    record { len = 0x2000; page_type = zeroed } ∷ record { len = 0x1000; page_type = dirty } ∷ []

abbrev memory : Ram
memory at = 7

bootinfo-IsBootable : IsBootable kernel bootinfo
bootinfo-IsBootable = record {
  kernel_range = omega arith;
  module_ranges = (omega arith, tt);
  module_count = omega arith;
}

init_regions :
    init kernel bootinfo
    ≡ done (record {
      regions =
          record { start = 0; next = 0x9f000 }
          ∷ record { start = 0x140000; next = 0x200000 }
          ∷ record { start = 0x210000; next = 0x1000000 }
          ∷ [];
    })
unfolding init bubble_sort visit_unused_regions add_region
init_regions = refl

boot_frames-Usable_example :
    (p : PageAllocator) × (frames : List Range) × (p' : PageAllocator) × (ram' : Ram) × (init kernel
        bootinfo
      ≡ done p)
    × (alloc_all p memory requests ≡ done (frames, p', ram'))
    × All (λ f. f.start % min_page_size ≡ 0) frames
    × ((x : ℕ)
        → (InSome x frames → Usable x kernel bootinfo)
          × (RamSeparate x bootinfo.free_rams → Separate x frames))
boot_frames-Usable_example =
    boot_frames-Usable kernel bootinfo memory requests bootinfo-IsBootable
      ((omega arith, refl), ((omega arith, refl), tt))

abbrev two_regions : PageAllocator
two_regions = record {
  regions = record { start = 0; next = 0x1800 } ∷ record { start = 0x4000; next = 0x8000 } ∷ [];
}

alloc_all-Separate_example :
    (frames : List Range) × (p' : PageAllocator) × (ram' : Ram) × (alloc_all two_regions memory
        requests
      ≡ done (frames, p', ram'))
    × All (λ f. f.start % min_page_size ≡ 0) frames
    × ((x : ℕ)
        → (InSome x frames → Left x two_regions.regions)
          × (Separate x (map span two_regions.regions) → Separate x frames))
alloc_all-Separate_example =
    alloc_all-Separate requests two_regions memory (omega arith, (omega arith, tt))
      ((omega arith, refl), ((omega arith, refl), tt))

abbrev reserved : List Range
reserved = kernel ∷ initfs ∷ []

visits :
    visit_unused_regions 0x100000 0x1000000 reserved
    ≡ range 0x140000 0x200000 ∷ range 0x210000 0x1000000 ∷ []
unfolding visit_unused_regions
visits = refl

visit_unused_regions-exact_example :
    InSome 0x150000 (visit_unused_regions 0x100000 0x1000000 reserved) ↔ (
      (0x100000 ≤ 0x150000)
      × (0x150000 < min 0x1000000 direct_map_end)
      × (¬ (InSome 0x150000 reserved)))
visit_unused_regions-exact_example =
    visit_unused_regions-exact 0x150000 0x100000 0x1000000 reserved
      ((omega arith, (omega arith, tt)), ((omega arith, tt), (tt, tt)))

bubble_sort-sorts_example :
    (r : List ℕ) × (bubble_sort (greater (λ n. n)) (5 ∷ 1 ∷ 4 ∷ 1 ∷ []) ≡ done r)
    × AscendBy (λ n. n) r
    × Perm r (5 ∷ 1 ∷ 4 ∷ 1 ∷ [])
bubble_sort-sorts_example = bubble_sort-sorts (λ n. n) (5 ∷ 1 ∷ 4 ∷ 1 ∷ [])
