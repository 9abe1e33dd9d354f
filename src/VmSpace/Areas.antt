-- ===== src/VmSpace/Areas.antt =====
-- What kernel/src/vmspace.rs uses, made of the areas of kernel/src/vmarea.rs. The pages of all areas stand in one list, each
-- area's one after the other; an area's call runs on its own pages. The page tables are by what a walk finds for a page.
use ftl.Base.{
  ℕ, ◌+◌, ◌*◌, ◌≤◌, ◌≡◌, refl, sym, ap, subst, ◌∙◌, arith, ◌⊎◌, inl, inr, ltb, ◌==◌, if◌then◌else◌,
  true, false, Option, none, some, List, ◌++◌, length, take, drop, take-append-drop, length-take,
  length-drop, Exec, done, panic, Result, ok, err,
}
use ftl.Base.Word.{IsUsize, usize_mod}
use ftl.Base.Ram.{load, load-cong}
use ftl.Api.ErrorCode.{ErrorCode, already_exists, out_of_memory}
use ftl.Arch.Direct.{min_page_size}
use ftl.VmArea
use ftl.VmArea.{State, read_loop}
use ftl.VmArea.Fill.{IsValid, content}
use ftl.VmArea.Access.{read_loop_lem}
use ftl.VmArea.Window.{embed, embed_result, IsValid-within, read_loop-embed}
use ftl.VmSpace.{Backend}
use ftl.VmSpace.Read.{Areas}

-- All areas, and the page tables: the frame and the attributes of each page that is mapped.
pub record Memory : Type 0 where
  pub areas : State
  pub table : ℕ → Option (ℕ × ℕ)

-- The pages of an area are those from `first` on, among `num`.
pub record Area (num : ℕ) : Type 0 where
  pub first : ℕ
  pub count : ℕ
  pub inside : first + count ≤ num

-- The pages before an area, and those behind it.
abbrev pub before : {num : ℕ} → Area num → State → List (Option ℕ)
before a s = take a.first s.pages

abbrev pub behind : {num : ℕ} → Area num → State → List (Option ℕ)
behind a s = drop a.count (drop a.first s.pages)

abbrev pub window : {num : ℕ} → Area num → State → State
window a s = record s { pages = take a.count (drop a.first s.pages) }

-- A call of an area.
abbrev pub run_area :
    {num : ℕ} {A : Type 0}
    → Area num
    → (State → Exec (Result A ErrorCode × State))
    → State
    → Exec (Result A ErrorCode × State)
run_area a call s = embed_result (before a s) (behind a s) (call (window a s))

abbrev pub keep_table :
    {A : Type 0}
    → (ℕ → Option (ℕ × ℕ))
    → Exec (Result A ErrorCode × State)
    → Exec (Result A ErrorCode × Memory)
keep_table table (done (r, s)) = done (r, record { areas = s; table = table })
keep_table table panic = panic

-- An entry that is there stays.
abbrev pub add_entry :
    Memory → ℕ → ℕ × ℕ → Option (ℕ × ℕ) → Exec (Result (Unit {0}) ErrorCode × Memory)
add_entry m uaddr page (some old) = done (err already_exists, m)
add_entry m uaddr page none =
    done (ok tt, record m { table = λ x. if x == uaddr then some page else m.table x })

abbrev pub kernel_areas : ℕ → Backend
kernel_areas num = record {
  Area = Area num;
  Store = Memory;
  len = λ a. min_page_size * a.count;
  read = λ a offset n m.
      keep_table m.table (run_area a (VmArea.read (min_page_size * a.count) offset n) m.areas);
  ensure_page = λ a index m. keep_table m.table (run_area a (VmArea.ensure_page index) m.areas);
  arch_map = λ uaddr paddr n attrs m. add_entry m uaddr (paddr, attrs) (m.table uaddr);
}

module _ {num : ℕ} (a : Area num) (s : State) (enough : num ≤ length s.pages) where
  pub length-before : length (before a s) ≡ a.first
  length-before = let l = length-take a.first s.pages in let i = a.inside in omega arith

  pub length-window : length (window a s).pages ≡ a.count
  length-window =
      let l = length-take a.count (drop a.first s.pages) in
      let d = length-drop a.first s.pages in let i = a.inside in omega arith

  pub whole_again : embed (before a s) (behind a s) (window a s) ≡ s
  whole_again =
      ap (λ (pages : List (Option ℕ)). record s { pages = pages })
        (ap (λ (rest : List (Option ℕ)). before a s ++ rest)
            (take-append-drop a.count (drop a.first s.pages))
          ∙ take-append-drop a.first s.pages)

  window-IsValid : IsValid s → IsValid (window a s)
  window-IsValid v =
      IsValid-within (before a s) (behind a s) (window a s) (subst IsValid (sym whole_again) v)

  -- A read within an area is one of all pages.
  run_area-read :
      (offset n : ℕ)
      → IsValid s
      → IsUsize (min_page_size * num)
      → offset + n ≤ min_page_size * a.count
      → run_area a (VmArea.read (min_page_size * a.count) offset n) s
        ≡ read_loop n (min_page_size * a.first + offset) n s
  unfolding VmArea.read
  run_area-read offset n v small inside =
      let i = a.inside in
      let fits : ltb (offset + n) usize_mod ≡ true = ground arith in
      let room : ltb (min_page_size * a.count) (offset + n) ≡ false = ground arith in
      let pre = length-before in
      let mid = length-window in
      let checked : VmArea.read (min_page_size * a.count) offset n (window a s)
          ≡ read_loop n offset n (window a s) =
        rw (VmArea.read, fits, room) refl in
      ap (embed_result (before a s) (behind a s)) checked
      ∙ sym (
          read_loop-embed (before a s) (behind a s) n (min_page_size * a.first + offset) offset n
            (window a s) (window-IsValid v) (omega arith) (omega arith))
      ∙ ap (read_loop n (min_page_size * a.first + offset) n) whole_again

-- The areas are valid, and there are enough pages for all.
abbrev pub AreasValid : ℕ → Memory → Type 0
AreasValid num m = IsValid m.areas × (num ≤ length m.areas.pages)

abbrev pub area_byte : {num : ℕ} → Memory → Area num → ℕ → ℕ
area_byte m a i = content m.areas (min_page_size * a.first + i)

pub kernel_areas-fetch :
    {num : ℕ} (small : IsUsize (min_page_size * num)) (a : Area num) (offset n : ℕ) (m : Memory)
    → AreasValid num m
    → offset + n ≤ min_page_size * a.count
    → let b = kernel_areas num in
      (m' : Memory) × AreasValid num m'
      × ((other : Area num) (i : ℕ) → area_byte m' other i ≡ area_byte m other i)
      × ((b.read a offset n m ≡ done (ok (load (area_byte m a) offset n), m'))
          ⊎ (b.read a offset n m ≡ done (err out_of_memory, m')))
kernel_areas-fetch {num} small a offset n m (v, enough) inside =
    let i = a.inside in
    let from = min_page_size * a.first + offset in
    let run = run_area-read a m.areas enough offset n v small inside in
    let (s', grows, reply) = read_loop_lem n from n m.areas v (omega arith) (omega arith) in
    let same_bytes =
      load-cong n (content m.areas) (area_byte m a) from offset
        (λ j lt. ap (content m.areas) (omega arith)) in
    let size = grows.size in
    (
      record { areas = s'; table = m.table },
      (grows.valid, omega arith),
      (λ other j. grows.same (min_page_size * other.first + j)),
      elim reply [
        | inl e ↦ inl (
            ap (keep_table m.table) (run ∙ e)
            ∙ ap (λ (bytes : List ℕ). done (ok bytes, record { areas = s'; table = m.table }))
                same_bytes)
        | inr e ↦ inr (ap (keep_table m.table) (run ∙ e))
      ],
    )

-- The areas of the kernel keep what an address space asks of areas.
abbrev pub kernel_areas-Areas : (num : ℕ) → IsUsize (min_page_size * num) → Areas (kernel_areas num)
kernel_areas-Areas num small = record {
  Valid = AreasValid num;
  byte = area_byte;
  fetch = kernel_areas-fetch small;
}
