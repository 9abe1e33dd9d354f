-- ===== src/Memory/Init.antt =====
-- kernel/src/boot.rs, and `init` of kernel/src/memory.rs, which fills the page allocator from the
-- boot information. The kernel's own range comes from the linker, and is an argument.
pub mod Order
pub mod Grow
pub mod Safe
use ftl.Base.{ℕ, Option, none, some, List, [], ◌∷◌, Result, ok, err, Exec, done, panic, ◌>>=◌}
use ftl.Base.Word.{checked_add}
use ftl.ArrayVec.Bounded
use ftl.ArrayVec.Bounded.{Reply, answer}
use ftl.Memory.Visit.{Range, visit_unused_regions}
use ftl.Memory.Sort.{bubble_sort}
use ftl.Memory.Sort.Sorted.{greater}
use ftl.Memory.Page.{PageAllocator, add_region}

pub record FreeRam : Type 0 where
  pub addr : ℕ
  pub size : ℕ

-- A module is its range of physical addresses.
pub record BootInfo : Type 0 where
  pub cmdline : List ℕ
  pub modules : List Range
  pub free_rams : List FreeRam

abbrev pub num_modules_max : ℕ
num_modules_max = 8

-- `try_push(..).unwrap()` on the reserved regions, an `ArrayVec` for the modules and the kernel.
push_unwrap : List Range → Range → Exec (List Range)
unfolding answer
push_unwrap reserved r =
    let (reply, reserved') = answer 9 reserved (Bounded.push r) in
    elim reply [ Bounded.pushed (ok _) ↦ done reserved' | _ ↦ panic ]

push_all : List Range → List Range → Exec (List Range)
unfolding push_unwrap
push_all reserved [] = done reserved
push_all reserved (r ∷ rest) = do reserved' ← push_unwrap reserved r; push_all reserved' rest

add_regions : PageAllocator → List Range → PageAllocator
add_regions p [] = p
add_regions p (r ∷ rest) = add_regions (add_region p r.start r.end) rest

-- One round of the loop over the free RAM regions. A region that overflows is skipped.
add_free_ram : List Range → PageAllocator → FreeRam → PageAllocator
unfolding add_regions
add_free_ram reserved p ram = elim (checked_add ram.addr ram.size) [
  | none ↦ p
  | some end ↦ add_regions p (visit_unused_regions ram.addr end reserved)
]

add_free_rams : List Range → PageAllocator → List FreeRam → PageAllocator
unfolding add_free_ram
add_free_rams reserved p [] = p
add_free_rams reserved p (ram ∷ rest) = add_free_rams reserved (add_free_ram reserved p ram) rest

unfoldable pub init : Range → BootInfo → Exec PageAllocator
unfolding push_all add_free_rams
init kernel bootinfo = do
  reserved ← push_all [] (kernel ∷ bootinfo.modules)
  sorted ← bubble_sort (greater λ r. r.start) reserved
  done (add_free_rams sorted (record { regions = [] }) bootinfo.free_rams)
