-- ===== src/Memory/Init/Safe.antt =====
-- After the start-up the page allocator has only memory that is free: RAM in the direct map, outside
-- the kernel and the modules.
use native.Mathlib.Bridge.{le_prop}
use ftl.Base.{
  ℕ, ◌+◌, ◌%◌, ◌≤◌, ◌<◌, ◌≡◌, ◌⊎◌, inl, inr, arith, List, [], ◌∷◌, ◌++◌, map, length, length-append,
  All, All-mono, done, ◌>>=◌, Option-cases, min,
}
use mathlib.Core.List.{append_assoc, append-nil}
use ftl.Base.Word.{IsUsize, checked_add}
use ftl.Memory.Visit.{Range, direct_map_end, visit_unused_regions}
use ftl.Memory.Visit.Exact.{In, InSome, StartsAscend, visit_unused_regions-exact}
use ftl.Memory.Visit.Ascend.{Ascending, NoneInverted, visit_unused_regions-Ascending}
use ftl.Memory.Sort.Sorted.{bubble_sort-sorts}
use ftl.Memory.Page.{PageAllocator, add_region}
use ftl.Memory.Page.{Ram}
use ftl.Memory.Page.Runs.{Request, IsWhole, alloc_all, alloc_all-Separate}
use ftl.Arch.Direct.{min_page_size}
use ftl.Memory.Page.Frames.{span, Left, Separate, Small}
use ftl.Memory.Init.Order.{not-InSome-Perm, All-Perm}
use ftl.Memory.Init.Grow.{Extends, Extends-none, Extends-trans, Extends-mono, add_region-Extends}
use ftl.Memory.Init.{
  FreeRam, BootInfo, num_modules_max, push_all, add_regions, add_free_ram, add_free_rams, init,
}

push_all-append :
    (rs acc : List Range) → length acc + length rs ≤ 9 → push_all acc rs ≡ done (acc ++ rs)
unfolding push_all
push_all-append [] acc h = ground (arith, append-nil acc)
push_all-append (r ∷ rs) acc h = ground (
  arith,
  length-append acc (r ∷ []),
  push_all-append rs (acc ++ r ∷ []),
  append_assoc acc (r ∷ []) rs,
)

-- The address lies in the RAM region, or in one of them.
abbrev pub InRam : ℕ → FreeRam → Type 0
InRam x ram = (ram.addr ≤ x) × (x < ram.addr + ram.size)

abbrev pub InSomeRam : ℕ → List FreeRam → Type 0
InSomeRam x [] = ⊥
InSomeRam x (r ∷ rs) = InRam x r ⊎ InSomeRam x rs

-- At most one RAM region holds the address.
abbrev pub RamSeparate : ℕ → List FreeRam → Type 0
RamSeparate x [] = Unit
RamSeparate x (r ∷ rs) = (InRam x r → ¬ (InSomeRam x rs)) × RamSeparate x rs

-- Free memory of a RAM region.
abbrev Fresh : ℕ → List Range → FreeRam → Type 0
Fresh x reserved ram = InRam x ram × (x < direct_map_end) × (¬ (InSome x reserved))

abbrev FreshSome : ℕ → List Range → List FreeRam → Type 0
FreshSome x reserved rams = InSomeRam x rams × (x < direct_map_end) × (¬ (InSome x reserved))

module _ (x : ℕ) where
  add_regions-Extends :
      (rs : List Range) (p : PageAllocator)
      → All (λ r. IsUsize r.end) rs
      → Extends x p (add_regions p rs) (InSome x rs) (Separate x rs)
  unfolding add_regions
  add_regions-Extends [] p h = Extends-none x p
  add_regions-Extends (r ∷ rs) p h =
      Extends-trans x (add_region-Extends x p r.start r.end h.0)
        (add_regions-Extends rs (add_region p r.start r.end) h.1) (λ s. (tt, s.1, s.0))

  not-In_later :
      (hi : ℕ) (r : Range) (rs : List Range)
      → All (λ s. r.end ≤ s.start) rs
      → In x r
      → ¬ (InSome x rs)
  not-In_later hi r [] h i j = j
  not-In_later hi r (s ∷ rs) h i (inl j) = omega arith
  not-In_later hi r (s ∷ rs) h i (inr j) = not-In_later hi r rs h.1 i j

  Ascending-Separate : (lo hi : ℕ) (rs : List Range) → Ascending lo hi rs → Separate x rs
  Ascending-Separate lo hi [] a = tt
  Ascending-Separate lo hi (r ∷ rs) a =
      (not-In_later hi r rs a.1.0, Ascending-Separate lo hi rs (a.0.1, a.1.1))

  module _ (reserved : List Range) (asc : StartsAscend reserved) where
    add_free_ram-Extends :
        (p : PageAllocator) (ram : FreeRam)
        → Extends x p (add_free_ram reserved p ram) (Fresh x reserved ram) Unit
    unfolding add_free_ram
    add_free_ram-Extends p ram = elim (Option-cases (checked_add ram.addr ram.size)) [
      | inl over ↦ rw (over, add_free_ram) (Extends-none x p)
      | inr (end, e) ↦
          let visited = visit_unused_regions ram.addr end reserved in
          let ascending = visit_unused_regions-Ascending ram.addr end reserved asc.0 in
          let sum : end ≡ ram.addr + ram.size = ground arith in
          rw (e, add_free_ram)
            (Extends-mono x
              (add_regions-Extends visited p
                (All-mono visited (λ r i. omega (arith, i.2)) ascending.0))
              (λ i.
                let f = (visit_unused_regions-exact x ram.addr end reserved asc).0 i in
                ((f.0, omega (arith, f.1)), (omega (arith, f.1)), f.2))
              (λ _. Ascending-Separate ram.addr (min end direct_map_end) visited ascending))
    ]

    add_free_rams-Extends :
        (rams : List FreeRam) (p : PageAllocator)
        → Extends x p
            (add_free_rams reserved p rams)
            (FreshSome x reserved rams)
            (RamSeparate x rams)
    unfolding add_free_rams
    add_free_rams-Extends [] p = Extends-none x p
    add_free_rams-Extends (ram ∷ rams) p =
        Extends-mono x
          (Extends-trans x {F = RamSeparate x (ram ∷ rams)} (add_free_ram-Extends p ram)
            (add_free_rams-Extends rams (add_free_ram reserved p ram))
            (λ s. (tt, s.1, λ n m. s.0 n.0 m.0)))
          (elim [ inl n ↦ (inl n.0, n.1, n.2) | inr m ↦ (inr m.0, m.1, m.2) ]) (λ s. s)

-- The boot information is well formed: no range is inverted, and there are at most eight modules.
pub record IsBootable (kernel : Range) (bootinfo : BootInfo) : Type 0 where
  pub kernel_range : kernel.start ≤ kernel.end
  pub module_ranges : NoneInverted bootinfo.modules
  pub module_count : length bootinfo.modules ≤ num_modules_max

-- What the page allocator may hand out.
abbrev pub Usable : ℕ → Range → BootInfo → Type 0
Usable x kernel bootinfo =
    InSomeRam x bootinfo.free_rams
    × (x < direct_map_end)
    × (¬ (In x kernel))
    × (¬ (InSome x bootinfo.modules))

-- `init` does not panic, and what the allocator has after it is usable memory; no address is in two
-- of its regions if none is in two RAM regions.
init-Usable :
    (kernel : Range) (bootinfo : BootInfo)
    → IsBootable kernel bootinfo
    → (p : PageAllocator) × (init kernel bootinfo ≡ done p)
      × Small p.regions
      × ((x : ℕ)
          → (Left x p.regions → Usable x kernel bootinfo)
            × (RamSeparate x bootinfo.free_rams → Separate x (map span p.regions)))
unfolding init
init-Usable kernel bootinfo b =
    let all = kernel ∷ bootinfo.modules in
    let (sorted, run, asc, perm) = bubble_sort-sorts (λ r. r.start) all in
    let inv : NoneInverted sorted =
      All-Perm {P = λ r. r.start ≤ r.end} (λ r. le_prop) sorted perm
        (b.kernel_range, b.module_ranges) in
    let p : PageAllocator = record { regions = [] } in
    let ext = λ (x : ℕ). add_free_rams-Extends x sorted (inv, asc) bootinfo.free_rams p in
    (
      add_free_rams sorted p bootinfo.free_rams,
      rw (push_all-append all [] (omega (arith, b.module_count)), ◌>>=◌) (rw (run, ◌>>=◌)),
      (ext 0).small tt,
      λ x. (
        λ l. elim ((ext x).left l) [
          | inl i ↦ absurd i
          | inr f ↦
              let outside = not-InSome-Perm x perm f.2 in
              (f.0, f.1, (λ i. outside (inl i)), (λ i. outside (inr i)))
        ],
        λ s. (ext x).separate s tt (λ i. absurd i),
      ),
    )

-- After the start-up from well-formed boot information, no sequence of requests for whole pages
-- panics. Every address of a frame that it returns lies in a RAM region and in the direct map, and
-- neither in the kernel nor in a module; and where no address is in two RAM regions, none is in two
-- frames.
pub boot_frames-Usable :
    (kernel : Range) (bootinfo : BootInfo) (ram : Ram) (rs : List Request)
    → IsBootable kernel bootinfo
    → All IsWhole rs
    → (p : PageAllocator) × (frames : List Range) × (p' : PageAllocator) × (ram' : Ram) × (init
          kernel bootinfo
        ≡ done p)
      × (alloc_all p ram rs ≡ done (frames, p', ram'))
      × All (λ f. f.start % min_page_size ≡ 0) frames
      × ((x : ℕ)
          → (InSome x frames → Usable x kernel bootinfo)
            × (RamSeparate x bootinfo.free_rams → Separate x frames))
boot_frames-Usable kernel bootinfo ram rs b w =
    let (p, run, small, usable) = init-Usable kernel bootinfo b in
    let (frames, p', ram', served, aligned, taken) = alloc_all-Separate rs p ram small w in
    (
      p,
      frames,
      p',
      ram',
      run,
      served,
      aligned,
      λ x. (λ i. (usable x).0 ((taken x).0 i), λ s. (taken x).1 ((usable x).1 s)),
    )
