-- ===== src/Malloc.antt =====
-- libs/rust/ftl_malloc/src/lib.rs: the allocator of the kernel's heap, a linked list of free chunks. The memory is
-- the header at each address where one stands; headers are written whole, and do not overlap.
pub mod FirstFit
pub mod Loop
pub mod Serve
pub mod Blocks
use ftl.Base.{
  ℕ, zero, suc, ◌+◌, ◌-◌, ◌^◌, ◌/◌, ◌%◌, ltb, leb, ◌==◌, if◌then◌else◌, not, ◌||◌, Bool, true,
  false, Option, none, some, Exec, done, panic, assert, ◌>>=◌, ◌>>◌,
}
use ftl.Base.Word.{checked_sub}
use ftl.Align.{align_up, is_aligned, is_power_of_two}

abbrev pub magic_free : ℕ
magic_free = 0x5f5f_5f5f

abbrev pub magic_allocated : ℕ
magic_allocated = 0x5a5a_5a5a

-- `size_of::<Header>()` on the 64-bit target
abbrev pub header_size : ℕ
header_size = 16

abbrev pub min_capacity : ℕ
min_capacity = 16

abbrev pub min_size : ℕ
min_size = 16

pub record Header : Type 0 where
  pub next : Option ℕ
  pub capacity : ℕ
  pub magic : ℕ

abbrev pub Heap : Type 0
Heap = ℕ → Header

abbrev pub set_header : Heap → ℕ → Header → Heap
set_header heap at h x = if x == at then h else heap x

pub record LinkedListAllocator : Type 0 where
  pub head : Option ℕ
  pub heap : Heap

abbrev pub data_ptr : ℕ → ℕ
data_ptr at = at + header_size

-- The data pointer, if the chunk meets the requirements.
unfoldable pub can_fit : ℕ → Header → ℕ → ℕ → Exec (Option ℕ)
can_fit at header size align =
    if leb size header.capacity
    then (is_aligned (data_ptr at) align >>= λ aligned.
        done (if aligned then some (data_ptr at) else none))
    else done none

-- The new header's place and the capacity behind it; the chunk itself is shrunk to `size` by the caller.
unfoldable pub try_split : ℕ → Header → ℕ → Exec (Option (ℕ × ℕ))
try_split at header size = elim (checked_sub header.capacity size) [
  | none ↦ done none
  | some remaining ↦
      if ltb remaining (header_size + min_capacity)
      then done none
      else elim (checked_sub remaining header_size) [
        | none ↦ done none
        | some remainder ↦ do
          aligned ← is_aligned (data_ptr at + size) min_size
          assert aligned
          done (some (data_ptr at + size, remainder))
      ]
]

unfoldable pub add_chunk : LinkedListAllocator → ℕ → ℕ → Exec LinkedListAllocator
add_chunk a ptr size = is_aligned ptr min_size >>= λ aligned.
    if ptr == 0 || not aligned then done a else elim (checked_sub size header_size) [
      | none ↦ done a
      | some capacity ↦
          if ltb capacity min_capacity || leb (2 ^ 32) capacity
          then done a
          else done (record {
            head = some ptr;
            heap =
                set_header a.heap ptr
                  (record { next = a.head; capacity = capacity; magic = magic_free });
          })
    ]

-- `prev.next = next_free`, or the head of the list.
abbrev pub relink : LinkedListAllocator → Option ℕ → Option ℕ → LinkedListAllocator
relink a none next_free = record a { head = next_free }
relink a (some prev) next_free =
    let h = a.heap prev in
    record a {
      heap =
          set_header a.heap prev
            (record { next = next_free; capacity = h.capacity; magic = h.magic });
    }

-- What `malloc` does with the chunk at `at` that fits: `split` is the answer of `try_split`.
abbrev pub take_chunk :
    LinkedListAllocator → Option ℕ → ℕ → ℕ → Option (ℕ × ℕ) → LinkedListAllocator
take_chunk a prev at size none =
    let h = a.heap at in
    relink
      (record a {
        heap =
            set_header a.heap at
              (record { next = none; capacity = h.capacity; magic = magic_allocated });
      })
      prev h.next
take_chunk a prev at size (some (new_header, remainder)) =
    let h = a.heap at in
    let heap' =
      set_header a.heap new_header
        (record { next = h.next; capacity = remainder; magic = magic_free }) in
    relink
      (record a {
        heap =
            set_header heap' at (record { next = none; capacity = size; magic = magic_allocated });
      })
      prev (some new_header)

-- The loop over the free list, with a bound on its rounds.
unfoldable pub malloc_loop :
    ℕ → LinkedListAllocator → Option ℕ → Option ℕ → ℕ → ℕ → Exec (Option ℕ × LinkedListAllocator)
malloc_loop zero a prev next size align = done (none, a)
malloc_loop (suc rounds) a prev none size align = done (none, a)
malloc_loop (suc rounds) a prev (some at) size align = do
  assert ((a.heap at).magic == magic_free)
  fit ← can_fit at (a.heap at) size align
  elim fit [
    | some ptr ↦ do
      split ← try_split at (a.heap at) size
      done (some ptr, take_chunk a prev at size split)
    | none ↦ malloc_loop rounds a (some at) (a.heap at).next size align
  ]

unfoldable pub malloc : ℕ → LinkedListAllocator → ℕ → ℕ → Exec (Option ℕ × LinkedListAllocator)
malloc rounds a size align = do
  assert (is_power_of_two align)
  assert (ltb 0 align)
  assert (ltb 0 size)
  if ltb ((2 ^ 32 - 1) / 2) size then done (none, a) else (do
    size' ← align_up size min_size
    malloc_loop rounds a none a.head (size' % 2 ^ 32) align)

unfoldable pub free : LinkedListAllocator → ℕ → Exec LinkedListAllocator
free a ptr = if ptr == 0 then done a else (do
  let at = ptr - header_size
  let h = a.heap at
  assert (h.magic == magic_allocated)
  done (record {
    head = some at;
    heap =
        set_header a.heap at (record { next = a.head; capacity = h.capacity; magic = magic_free });
  }))
