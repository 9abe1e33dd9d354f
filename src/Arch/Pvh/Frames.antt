-- ===== src/Arch/Pvh/Frames.antt =====
-- From the boot information of kernel/src/arch/x64/pvh.rs to the frames of kernel/src/memory.rs.
use ftl.Base.{
  ℕ, zero, suc, ◌+◌, ◌≤◌, ◌<◌, ◌≡◌, ◌⊎◌, refl, inl, inr, arith, ◌==◌, Bool-cases, true, false, some,
  List, [], ◌∷◌, map, take, length-take, subst, All, done,
}
use ftl.Base.Ram.{Ram}
use ftl.Memory.Visit.{Range, direct_map_end}
use ftl.Memory.Visit.Exact.{In, InSome}
use ftl.Memory.Visit.Ascend.{NoneInverted}
use ftl.Memory.Page.{PageAllocator}
use ftl.Memory.Page.Frames.{Separate}
use ftl.Memory.Page.Runs.{Request, IsWhole, alloc_all}
use ftl.Memory.Init.{FreeRam, BootInfo, init}
use ftl.Memory.Init.Safe
use ftl.Memory.Init.Safe.{InRam, InSomeRam, RamSeparate, boot_frames-Usable}
use ftl.Arch.Pvh.{HvmStartInfo, HvmModuleEntry, HvmMemoryMapEntry, parse_start_info}
use ftl.Arch.Pvh.Format.{IsBootable, region_of, free_of, parse_start_info_lem}

-- An entry of the memory map that is RAM holds the address, or one of the entries does.
abbrev pub InRamEntry : ℕ → HvmMemoryMapEntry → Type 0
InRamEntry x e = (e.mem_type ≡ 1) × (e.addr ≤ x) × (x < e.addr + e.size)

abbrev pub InSomeEntry : ℕ → List HvmMemoryMapEntry → Type 0
InSomeEntry x [] = ⊥
InSomeEntry x (e ∷ es) = InRamEntry x e ⊎ InSomeEntry x es

-- The RAM region of an entry.
abbrev ram_of : HvmMemoryMapEntry → FreeRam
ram_of e = record { addr = e.addr; size = e.size }

free_of-ram :
    (e : HvmMemoryMapEntry) (es : List HvmMemoryMapEntry)
    → (e.mem_type == 1) ≡ true
    → free_of (e ∷ es) ≡ ram_of e ∷ free_of es
unfolding free_of
free_of-ram e es is = rw (free_of, is) refl

free_of-other :
    (e : HvmMemoryMapEntry) (es : List HvmMemoryMapEntry)
    → (e.mem_type == 1) ≡ false
    → free_of (e ∷ es) ≡ free_of es
unfolding free_of
free_of-other e es other = rw (free_of, other) refl

module _ (x : ℕ) where
  free_of-InSomeEntry : (es : List HvmMemoryMapEntry) → InSomeRam x (free_of es) → InSomeEntry x es
  unfolding free_of
  free_of-InSomeEntry [] i = i
  free_of-InSomeEntry (e ∷ es) i = elim (Bool-cases (e.mem_type == 1)) [
    | inl is ↦
        let j : InSomeRam x (ram_of e ∷ free_of es) = subst (InSomeRam x) (free_of-ram e es is) i in
        let ram : e.mem_type ≡ 1 = ground arith in
        elim j [
          | inl here ↦ inl (ram, here.0, here.1)
          | inr later ↦ inr (free_of-InSomeEntry es later)
        ]
    | inr other ↦ inr (free_of-InSomeEntry es (subst (InSomeRam x) (free_of-other e es other) i))
  ]

  take-InSomeRam : (n : ℕ) (rs : List FreeRam) → InSomeRam x (take n rs) → InSomeRam x rs
  take-InSomeRam zero rs i = absurd i
  take-InSomeRam (suc n) [] i = i
  take-InSomeRam (suc n) (r ∷ rs) (inl i) = inl i
  take-InSomeRam (suc n) (r ∷ rs) (inr i) = inr (take-InSomeRam n rs i)

  take-RamSeparate : (n : ℕ) (rs : List FreeRam) → RamSeparate x rs → RamSeparate x (take n rs)
  take-RamSeparate zero rs s = tt
  take-RamSeparate (suc n) [] s = tt
  take-RamSeparate (suc n) (r ∷ rs) s =
      (λ i j. s.0 i (take-InSomeRam n rs j), take-RamSeparate n rs s.1)

region_of-NoneInverted :
    (n : ℕ) (ms : List HvmModuleEntry) → NoneInverted (take n (map region_of ms))
region_of-NoneInverted zero ms = tt
region_of-NoneInverted (suc n) [] = tt
region_of-NoneInverted (suc n) (m ∷ ms) = (omega arith, region_of-NoneInverted n ms)

-- A start from boot information in the format of PVH does not panic, up to the frames for any sequence of requests for whole
-- pages. Every address of such a frame lies in an entry of the memory map that is RAM and in the direct map, and neither in
-- the kernel nor in one of the first eight modules; where no address is in two RAM entries, none is in two frames.
pub start_info_frames :
    (kernel : Range) (rounds : ℕ) (ram : Ram) (start_info : ℕ) (i : HvmStartInfo) (cmdline : List ℕ)
    (modules : List HvmModuleEntry) (memory : List HvmMemoryMapEntry) (rs : List Request)
    → kernel.start ≤ kernel.end
    → IsBootable rounds ram start_info i cmdline modules memory
    → All IsWhole rs
    → (bootinfo : BootInfo) × (p : PageAllocator) × (frames : List Range) × (p' : PageAllocator)
      × (ram' : Ram) × (parse_start_info rounds ram start_info ≡ done (some bootinfo))
      × (init kernel bootinfo ≡ done p)
      × (alloc_all p ram rs ≡ done (frames, p', ram'))
      × ((x : ℕ)
          → (InSome x frames
              → InSomeEntry x memory
                × (x < direct_map_end)
                × (¬ (In x kernel))
                × (¬ (InSome x (take 8 (map region_of modules)))))
            × (RamSeparate x (free_of memory) → Separate x frames))
start_info_frames kernel rounds ram start_info i cmdline modules memory rs k b w =
    let bootinfo : BootInfo = record {
      cmdline = cmdline;
      modules = take 8 (map region_of modules);
      free_rams = take 8 (free_of memory);
    } in
    let safe : Safe.IsBootable kernel bootinfo = record {
      kernel_range = k;
      module_ranges = region_of-NoneInverted 8 modules;
      module_count = omega (arith, length-take 8 (map region_of modules));
    } in
    let (p, frames, p', ram', run, served, _, usable) =
      boot_frames-Usable kernel bootinfo ram rs safe w in
    (
      bootinfo,
      p,
      frames,
      p',
      ram',
      parse_start_info_lem rounds ram start_info i cmdline modules memory b,
      run,
      served,
      λ x. (
        λ j.
            let (r, low, outside, apart) = (usable x).0 j in
            (
              free_of-InSomeEntry x memory (take-InSomeRam x 8 (free_of memory) r),
              low,
              outside,
              apart,
            ),
        λ s. (usable x).1 (take-RamSeparate x 8 (free_of memory) s),
      ),
    )
