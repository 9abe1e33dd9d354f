-- ===== src/VmArea.antt =====
-- kernel/src/vmarea.rs: a memory area whose pages are allocated when they are first touched. Its lock is
-- held over each call, so a call is one step. The state of a call is the area's pages with the page
-- allocator and the memory.
pub mod Fill
pub mod Stored
pub mod Access
pub mod Window
use ftl.Base.{
  ℕ, zero, suc, ◌+◌, ◌-◌, ◌*◌, ◌/◌, ◌%◌, ltb, leb, ◌==◌, if◌then◌else◌, not, ◌||◌, Bool, true,
  false, Option, none, some, List, [], ◌∷◌, ◌++◌, length, replicate, take, drop, get_elem?, set,
  min, Exec, done, panic, Result, ok, err,
}
use ftl.Base
use ftl.Base.Word.{checked_add}
use ftl.Base.Ram.{Ram, store, load}
use ftl.Align.{is_aligned}
use ftl.Api.ErrorCode.{ErrorCode, out_of_memory, invalid_arg, out_of_bounds}
use ftl.Arch.Direct.{min_page_size, paddr2vaddr}
use ftl.Memory.Page.{PageAllocator, alloc, zeroed}

-- What a call of an area works on: `mutable.pages`, PAGE_ALLOCATOR and the memory. A page is its
-- physical address.
pub record State : Type 0 where
  pub pages : List (Option ℕ)
  pub pool : PageAllocator
  pub ram : Ram

abbrev pub Act : Type 0 → Type 0
Act A = State → Exec (Result A ErrorCode × State)

infixl 5 ◌>>=◌
abbrev pub ◌>>=◌ : {A B : Type 0} → Act A → (A → Act B) → Act B
◌>>=◌ m f s = elim (m s) [
  | done (ok a, s') ↦ f a s'
  | done (err e, s') ↦ done (err e, s')
  | panic ↦ panic
]

abbrev pub return : {A : Type 0} → A → Act A
return a s = done (ok a, s)

abbrev pub fail : {A : Type 0} → ErrorCode → Act A
fail e s = done (err e, s)

-- `*page = Some(Page { paddr })`, or the error of `ok_or`.
unfoldable pub fill : State → ℕ → Option ℕ × PageAllocator × Ram → Exec (Result ℕ ErrorCode × State)
fill s index (none, pool, ram) = done (err out_of_memory, record s { pool = pool; ram = ram })
fill s index (some paddr, pool, ram) =
    done (ok paddr, record { pages = set s.pages index (some paddr); pool = pool; ram = ram })

unfoldable pub get_or_fill : ℕ → Act ℕ
unfolding fill
get_or_fill index s = elim (get_elem? s.pages index) [
  | none ↦ panic
  | some (some paddr) ↦ done (ok paddr, s)
  | some none ↦ Base.◌>>=◌ (alloc s.pool s.ram min_page_size zeroed) (λ r. fill s index r)
]

-- `VmArea` is its pages and its length. `reserved` says whether the memory for the vector and for the
-- shared object was there.
pub record VmArea : Type 0 where
  pub pages : List (Option ℕ)
  pub len : ℕ

unfoldable pub new_anonymous : Bool → ℕ → Exec (Result VmArea ErrorCode)
new_anonymous reserved len = Base.◌>>=◌ (is_aligned len min_page_size) λ aligned.
    if len == 0 || not aligned
    then done (err invalid_arg)
    else if reserved
    then done (ok (record { pages = replicate (len / min_page_size) none; len = len }))
    else done (err out_of_memory)

unfoldable pub ensure_page : ℕ → Act ℕ
ensure_page index s =
    if leb (length s.pages) index then done (err out_of_bounds, s) else get_or_fill index s

-- The bytes that one round of a loop copies.
abbrev pub copy_len : ℕ → ℕ → ℕ
copy_len offset left = min left (min_page_size - offset % min_page_size)

abbrev store_page : ℕ → ℕ → List ℕ → Act (Unit {0})
store_page offset paddr bytes s =
    done (ok tt, record s { ram = store s.ram (paddr2vaddr paddr + offset % min_page_size) bytes })

abbrev load_page : ℕ → ℕ → ℕ → Act (List ℕ)
load_page offset paddr n s =
    done (ok (load s.ram (paddr2vaddr paddr + offset % min_page_size) n), s)

-- The loops. Each round copies a byte or more, so that as many rounds as there are bytes are enough.
unfoldable pub write_loop : ℕ → ℕ → List ℕ → Act (Unit {0})
write_loop zero offset bytes = return tt
write_loop (suc rounds) offset [] = return tt
write_loop (suc rounds) offset (b ∷ bs) =
    let n = copy_len offset (length (b ∷ bs)) in
    get_or_fill (offset / min_page_size) >>= λ paddr.
    store_page offset paddr (take n (b ∷ bs)) >>= λ _.
    write_loop rounds (offset + n) (drop n (b ∷ bs))

unfoldable pub read_loop : ℕ → ℕ → ℕ → Act (List ℕ)
read_loop zero offset left = return []
read_loop (suc rounds) offset zero = return []
read_loop (suc rounds) offset (suc k) =
    let n = copy_len offset (suc k) in
    get_or_fill (offset / min_page_size) >>= λ paddr. load_page offset paddr n >>= λ chunk.
    read_loop rounds (offset + n) (suc k - n) >>= λ rest. return (chunk ++ rest)

-- `write` and `read` on an area of `len` bytes; the buffer of a read is what it returns.
unfoldable pub write : ℕ → ℕ → List ℕ → Act (Unit {0})
write len offset bytes = elim (checked_add offset (length bytes)) [
  | none ↦ fail out_of_bounds
  | some offset_end ↦
      if ltb len offset_end then fail out_of_bounds else write_loop (length bytes) offset bytes
]

unfoldable pub read : ℕ → ℕ → ℕ → Act (List ℕ)
read len offset n = elim (checked_add offset n) [
  | none ↦ fail out_of_bounds
  | some offset_end ↦ if ltb len offset_end then fail out_of_bounds else read_loop n offset n
]
