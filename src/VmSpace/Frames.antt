-- ===== src/VmSpace/Frames.antt =====
-- The areas of kernel/src/vmarea.rs give an address space the frames of their pages.
use ftl.Base.{
  ℕ, ◌+◌, ◌*◌, ◌≤◌, ◌<◌, ◌≡◌, ◌≢◌, refl, sym, ap, subst, ◌∙◌, arith, ◌⊎◌, inl, inr, leb, ◌==◌,
  if◌then◌else◌, true, false, Option, none, some, Option-cases, List, length, get_elem?, set,
  get_elem?-set_ne, Exec, done, panic, Result, ok, err,
}
use ftl.Base
use ftl.Base.Ram.{Ram}
use ftl.Api.ErrorCode.{ErrorCode, already_exists, out_of_memory}
use ftl.Arch.Direct.{min_page_size}
use ftl.Memory.Page.{PageAllocator, alloc, zeroed}
use ftl.VmArea
use ftl.VmArea.{State, fill, get_or_fill}
use ftl.VmArea.Fill.{get_or_fill_lem}
use ftl.VmArea.Window.{embed_result, get_or_fill-embed}
use ftl.VmSpace.Pages.{Mappable}
use ftl.VmSpace.Areas.{
  Memory, Area, window, before, behind, run_area, keep_table, add_entry, kernel_areas, AreasValid,
  length-before, length-window, whole_again,
}

-- A call that loses no page.
abbrev KeepsPages : {A : Type 0} → State → Exec (Result A ErrorCode × State) → Type 0
KeepsPages s (done (r, s')) =
    (i p : ℕ) → get_elem? s.pages i ≡ some (some p) → get_elem? s'.pages i ≡ some (some p)
KeepsPages s panic = Unit

fill-KeepsPages :
    (s : State) (index : ℕ) (r : Option ℕ × PageAllocator × Ram)
    → get_elem? s.pages index ≡ some none
    → KeepsPages s (fill s index r)
unfolding fill
fill-KeepsPages s index (none, pool, ram) empty = λ i p e. e
fill-KeepsPages s index (some a, pool, ram) empty = λ i p e.
    let other : index ≢ i = λ same. cc (e, empty, ap (get_elem? s.pages) same) in
    get_elem?-set_ne s.pages (some a) other ∙ e

alloc-KeepsPages :
    (s : State) (index : ℕ) (m : Exec (Option ℕ × PageAllocator × Ram))
    → get_elem? s.pages index ≡ some none
    → KeepsPages s (Base.◌>>=◌ m (λ r. fill s index r))
alloc-KeepsPages s index (done r) empty = fill-KeepsPages s index r empty
alloc-KeepsPages s index panic empty = tt

found-KeepsPages :
    (s : State) (index : ℕ) (found : Option (Option ℕ))
    → get_elem? s.pages index ≡ found
    → KeepsPages s (get_or_fill index s)
unfolding get_or_fill
found-KeepsPages s index none f = rw (get_or_fill, f) tt
found-KeepsPages s index (some (some p)) f = rw (get_or_fill, f) (λ i q e. e)
found-KeepsPages s index (some none) f =
    rw (get_or_fill, f) (alloc-KeepsPages s index (alloc s.pool s.ram min_page_size zeroed) f)

-- The frame of a page, if it is there.
abbrev pub frame_of : Option (Option ℕ) → Option ℕ
frame_of none = none
frame_of (some page) = page

abbrev pub page_of : {num : ℕ} → Memory → Area num → ℕ → Option ℕ
page_of m a i = frame_of (get_elem? m.areas.pages (a.first + i))

frame_of-some : (o : Option (Option ℕ)) (p : ℕ) → frame_of o ≡ some p → o ≡ some (some p)
frame_of-some none p e = cc
frame_of-some (some page) p e = ap some e

run_area-ensure_page :
    {num : ℕ} (a : Area num) (s : State) (index : ℕ)
    → num ≤ length s.pages
    → index < a.count
    → run_area a (VmArea.ensure_page index) s ≡ get_or_fill (a.first + index) s
unfolding VmArea.ensure_page
run_area-ensure_page a s index enough inside =
    let pre = length-before a s enough in
    let mid = length-window a s enough in
    let within : leb (length (window a s).pages) index ≡ false = ground arith in
    let checked : VmArea.ensure_page index (window a s) ≡ get_or_fill index (window a s) =
      rw (VmArea.ensure_page, within) refl in
    ap (embed_result (before a s) (behind a s)) checked
    ∙ sym (
        get_or_fill-embed (before a s) (behind a s) (window a s) index (a.first + index)
          (omega arith) (omega arith))
    ∙ ap (get_or_fill (a.first + index)) (whole_again a s enough)

module _ {num : ℕ} where
  pub ensure_lem :
      (a : Area num) (index : ℕ) (m : Memory)
      → AreasValid num m
      → min_page_size * (index + 1) ≤ min_page_size * a.count
      → let b = kernel_areas num in
        (m' : Memory) × AreasValid num m'
        × ((other : Area num) (i p : ℕ) → page_of m other i ≡ some p → page_of m' other i ≡ some p)
        × ((u : ℕ) → m'.table u ≡ m.table u)
        × (((p : ℕ) × (b.ensure_page a index m ≡ done (ok p, m')) × (page_of m' a index ≡ some p))
            ⊎ (b.ensure_page a index m ≡ done (err out_of_memory, m')))
  ensure_lem a index m (v, enough) inside =
      let i = a.inside in
      let run = run_area-ensure_page a m.areas index enough (omega arith) in
      let keeps =
        found-KeepsPages m.areas (a.first + index) (get_elem? m.areas.pages (a.first + index))
          refl in
      elim (get_or_fill_lem m.areas (a.first + index) v (omega arith)) [
        | inr e ↦ (
          m,
          (v, enough),
          (λ other j p f. f),
          (λ u. refl),
          inr (ap (keep_table m.table) (run ∙ e)),
        )
        | inl (p, s', e, grows, here) ↦
            let kept = subst (KeepsPages m.areas) e keeps in
            let size = grows.size in
            (
              record { areas = s'; table = m.table },
              (grows.valid, omega arith),
              (λ other j q f. ap frame_of (kept (other.first + j) q (frame_of-some _ q f))),
              (λ u. refl),
              inl (p, ap (keep_table m.table) (run ∙ e), ap frame_of here),
            )
      ]

  pub set_lem :
      (uaddr paddr attrs : ℕ) (m : Memory)
      → AreasValid num m
      → let b = kernel_areas num in
        (m' : Memory) × AreasValid num m'
        × ((other : Area num) (i : ℕ) → page_of m' other i ≡ page_of m other i)
        × (((b.arch_map uaddr paddr min_page_size attrs m ≡ done (ok tt, m'))
              × ((u : ℕ) → m'.table u ≡ (if u == uaddr then some (paddr, attrs) else m.table u)))
            ⊎ ((e : ErrorCode) × (b.arch_map uaddr paddr min_page_size attrs m ≡ done (err e, m'))
                × ((u : ℕ) → m'.table u ≡ m.table u)))
  set_lem uaddr paddr attrs m v = elim (Option-cases (m.table uaddr)) [
    | inr (old, e) ↦ (
      m,
      v,
      (λ other i. refl),
      inr (already_exists, ap (add_entry m uaddr (paddr, attrs)) e, λ u. refl),
    )
    | inl e ↦ (
      record m { table = λ x. if x == uaddr then some (paddr, attrs) else m.table x },
      v,
      (λ other i. refl),
      inl (ap (add_entry m uaddr (paddr, attrs)) e, λ u. refl),
    )
  ]

-- The areas of the kernel keep what `map` asks of them.
abbrev pub kernel_areas-Mappable : (num : ℕ) → Mappable (kernel_areas num)
kernel_areas-Mappable num = record {
  Valid = AreasValid num;
  page = page_of;
  entry = λ m u. m.table u;
  ensure = ensure_lem;
  set = set_lem;
}
