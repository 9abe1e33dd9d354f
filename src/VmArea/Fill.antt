-- ===== src/VmArea/Fill.antt =====
-- The pages of an area are its own and are filled with zeroes when they are first touched: what
-- `get_or_fill` of kernel/src/vmarea.rs does to the bytes of the area.
use ftl.Base.{
  ℕ, zero, suc, ◌+◌, ◌-◌, ◌*◌, ◌/◌, ◌%◌, ◌^◌, ◌≤◌, ◌<◌, ◌==◌, ltb, leb, if◌then◌else◌, ◌≡◌, ◌≢◌,
  refl, sym, ap, ◌∙◌, ◌⊎◌, inl, inr, arith, Option, none, some, List, [], ◌∷◌, map, length,
  length-set, get_elem?, set, get_elem?-set_self, get_elem?-set_ne, le_of_get_elem?, All, Exec,
  done, Result, ok, err, true, false, Option-cases, Bool-cases,
}
use native.Mathlib.Decide.{ℕ_discrete}
use ftl.Base
use ftl.Bump.{BumpAllocator}
use ftl.Base.Ram.{Ram}
use ftl.Arch.Direct.{min_page_size, paddr2vaddr, paddr2vaddr-add}
use ftl.Api.ErrorCode.{out_of_memory}
use ftl.Memory.Visit.Exact.{In}
use ftl.Memory.Page.{PageAllocator, zeroed, prepare, write_zeroes}
use ftl.Memory.Page.Frames.{span, Left, Separate, Small, frame, alloc_from-Outcome, Carved}
use ftl.Memory.Page.Runs.{Request, alloc-whole}
use ftl.VmArea.{State, get_or_fill}

-- The byte at `x` of an area: zero, until the page is there.
abbrev pub byte_of : Ram → Option (Option ℕ) → ℕ → ℕ
byte_of ram none x = 0
byte_of ram (some none) x = 0
byte_of ram (some (some paddr)) x = ram (paddr2vaddr paddr + x % min_page_size)

abbrev pub content : State → ℕ → ℕ
content s x = byte_of s.ram (get_elem? s.pages (x / min_page_size)) x

-- The pages are whole frames of the direct map, no two of them are one, and the allocator has none
-- of them left to give.
pub record IsValid (s : State) : Type 0 where
  pub aligned : (i p : ℕ) → get_elem? s.pages i ≡ some (some p) → p % min_page_size ≡ 0
  pub mapped : (i p : ℕ) → get_elem? s.pages i ≡ some (some p) → p + min_page_size ≤ 2 ^ 47
  pub own :
      (i p x : ℕ)
      → get_elem? s.pages i ≡ some (some p)
      → In x (frame p min_page_size)
      → ¬ (Left x s.pool.regions)
  pub distinct :
      (i j p : ℕ)
      → get_elem? s.pages i ≡ some (some p)
      → get_elem? s.pages j ≡ some (some p)
      → i ≡ j
  pub small : Small s.pool.regions
  pub separate : (x : ℕ) → Separate x (map span s.pool.regions)
  pub direct : (x : ℕ) → Left x s.pool.regions → x < 2 ^ 47

-- What a state may become: the same pages, or more, over the same bytes.
pub record Grows (s s' : State) : Type 0 where
  pub valid : IsValid s'
  pub size : length s'.pages ≡ length s.pages
  pub same : (x : ℕ) → content s' x ≡ content s x

-- The state with a new page.
abbrev filled : State → ℕ → ℕ → PageAllocator → State
filled s index a pool = record {
  pages = set s.pages index (some a);
  pool = pool;
  ram = write_zeroes s.ram (paddr2vaddr a) min_page_size;
}

page_cases :
    (pages : List (Option ℕ)) (index a i p : ℕ)
    → index < length pages
    → get_elem? (set pages index (some a)) i ≡ some (some p)
    → ((i ≡ index) × (p ≡ a)) ⊎ ((i ≢ index) × (get_elem? pages i ≡ some (some p)))
page_cases pages index a i p h e = elim (ℕ_discrete i index) [
  | yes same ↦
      let found = get_elem?-set_self pages index (some a) h in
      inl (same, cc (ap (get_elem? (set pages index (some a))) same))
  | no other ↦ inr (other, sym (get_elem?-set_ne pages (some a) (λ e. other (sym e))) ∙ e)
]

apart_from_page : (x a : ℕ) → ¬ (In x (frame a min_page_size)) → (x < a) ⊎ (a + min_page_size ≤ x)
apart_from_page x a out = elim (Bool-cases (ltb x a)) [
  | inl below ↦ inl (ground arith)
  | inr h ↦ elim (Bool-cases (ltb x (a + min_page_size))) [
    | inl within ↦ absurd (out (ground arith))
    | inr above ↦ inr (ground arith)
  ]
]

write_zeroes_outside :
    (ram : Ram) (at x : ℕ)
    → (x < at) ⊎ (at + min_page_size ≤ x)
    → write_zeroes ram at min_page_size x ≡ ram x
write_zeroes_outside ram at x h = ground arith

write_zeroes_inside :
    (ram : Ram) (at i : ℕ) → i < min_page_size → write_zeroes ram at min_page_size (at + i) ≡ 0
write_zeroes_inside ram at i h = ground arith

abbrev a_page : Request
a_page = record { len = min_page_size; page_type = zeroed }

module _ (s : State) (v : IsValid s) (index : ℕ) (inside : index < length s.pages)
    (empty : get_elem? s.pages index ≡ some none) (a : ℕ) (regions : List BumpAllocator)
    (carved : (x : ℕ) → Carved x s.pool.regions regions a min_page_size) where
  abbrev s' : State
  s' = filled s index a (record { regions = regions })

  taken : (x : ℕ) → In x (frame a min_page_size) → Left x s.pool.regions
  taken x i = (carved x).taken i

  mapped_new : a + min_page_size ≤ 2 ^ 47
  mapped_new = omega (arith, v.direct (a + 4095) (taken (a + 4095) (omega arith)))

  filled-IsValid : IsValid s'
  filled-IsValid = record {
    aligned = λ i p e. elim (page_cases s.pages index a i p inside e) [
      | inl (_, q) ↦ rw q (carved 0).aligned
      | inr (_, q) ↦ v.aligned i p q
    ];
    mapped = λ i p e. elim (page_cases s.pages index a i p inside e) [
      | inl (_, q) ↦ rw q mapped_new
      | inr (_, q) ↦ v.mapped i p q
    ];
    own = λ i p x e w l. elim (page_cases s.pages index a i p inside e) [
      | inl (_, q) ↦ (carved x).gone (v.separate x) l (rw (← q) w)
      | inr (_, q) ↦ v.own i p x q w ((carved x).rest l)
    ];
    distinct = λ i j p e f. elim (page_cases s.pages index a i p inside e) [
      | inl (same, q) ↦ elim (page_cases s.pages index a j p inside f) [
        | inl (same', _) ↦ same ∙ sym same'
        | inr (_, g) ↦ absurd (v.own j p p g (omega arith) (taken p (omega arith)))
      ]
      | inr (_, g) ↦ elim (page_cases s.pages index a j p inside f) [
        | inl (same', q) ↦ absurd (v.own i p p g (omega arith) (taken p (omega arith)))
        | inr (_, g') ↦ v.distinct i j p g g'
      ]
    ];
    small = (carved 0).small v.small;
    separate = λ x. (carved x).separate (v.separate x);
    direct = λ x l. v.direct x ((carved x).rest l);
  }

  -- The byte of another page, or of a page that is not there, is left alone.
  untouched :
      (i x : ℕ) (page : Option (Option ℕ))
      → get_elem? s.pages i ≡ page
      → byte_of s'.ram page x ≡ byte_of s.ram page x
  untouched i x none e = refl
  untouched i x (some none) e = refl
  untouched i x (some (some q)) e =
      let within = v.mapped i q e in
      let at_q = paddr2vaddr-add q (omega arith) in
      let at_a = paddr2vaddr-add a (omega (arith, mapped_new)) in
      let apart = apart_from_page (q + x % min_page_size) a (λ w.
        v.own i q (q + x % min_page_size) e (omega arith) (taken (q + x % min_page_size) w)) in
      write_zeroes_outside s.ram (paddr2vaddr a) (paddr2vaddr q + x % min_page_size)
        (elim apart [ inl below ↦ inl (omega arith) | inr above ↦ inr (omega arith) ])

  filled-content : (x : ℕ) → content s' x ≡ content s x
  filled-content x =
      let before = λ (page : Option (Option ℕ)). byte_of s.ram page x in
      let after = λ (page : Option (Option ℕ)). byte_of s'.ram page x in
      let i = x / min_page_size in
      elim (ℕ_discrete i index) [
        | yes same ↦
            ap after
              (ap (get_elem? s'.pages) same ∙ get_elem?-set_self s.pages index (some a) inside)
            ∙ write_zeroes_inside s.ram (paddr2vaddr a) (x % min_page_size) (omega arith)
            ∙ sym (ap before (ap (get_elem? s.pages) same ∙ empty))
        | no other ↦
            ap after (get_elem?-set_ne s.pages (some a) (λ e. other (sym e)))
            ∙ untouched i x (get_elem? s.pages i) refl
      ]

-- With a valid state and an index below the number of pages, `get_or_fill` gives the page that is then at
-- the index, or reports that there is no memory; the bytes of the area stay what they were.
pub get_or_fill_lem :
    (s : State) (index : ℕ)
    → IsValid s
    → index < length s.pages
    → ((p : ℕ) × (s' : State) × (get_or_fill index s ≡ done (ok p, s'))
        × Grows s s'
        × (get_elem? s'.pages index ≡ some (some p)))
      ⊎ (get_or_fill index s ≡ done (err out_of_memory, s))
unfolding get_or_fill prepare
get_or_fill_lem s index v h = elim (Option-cases (get_elem? s.pages index)) [
  | inl e ↦ absurd (omega (arith, le_of_get_elem? s.pages index e))
  | inr (some p, e) ↦
      inl (p, s, rw (get_or_fill, e) refl, record { valid = v; size = refl; same = λ x. refl }, e)
  | inr (none, e) ↦ elim (alloc_from-Outcome min_page_size s.pool.regions v.small) [
    | inl (a, regions, run, carved) ↦ inl (
      a,
      filled s index a (record { regions = regions }),
      rw (get_or_fill, e, alloc-whole s.pool s.ram a_page (omega arith), run, Base.◌>>=◌) refl,
      record {
        valid = filled-IsValid s v index h e a regions carved;
        size = length-set s.pages index (some a);
        same = filled-content s v index h e a regions carved;
      },
      get_elem?-set_self s.pages index (some a) h,
    )
    | inr run ↦
        inr rw (get_or_fill, e, alloc-whole s.pool s.ram a_page (omega arith), run, Base.◌>>=◌) refl
  ]
]
