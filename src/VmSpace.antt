-- ===== src/VmSpace.antt =====
-- kernel/src/vmspace.rs: an address space as a sorted list of mappings of memory areas. Its lock is held over each
-- call, so a call is one step.
pub mod Pages
pub mod Mapped
pub mod Outcome
pub mod Read
pub mod Bytes
pub mod Areas
pub mod Frames
use ftl.Base.{
  ℕ, zero, suc, ◌+◌, ◌-◌, ◌*◌, ◌/◌, ltb, leb, if◌then◌else◌, not, ◌&&◌, ◌||◌, Bool, true, false,
  Option, none, some, List, [], ◌∷◌, ◌++◌, length, take, drop, min, Exec, done, panic, Result, ok,
  err, unwrap, ◌≡◌, ◌≤◌, ◌⊎◌,
}
use ftl.Base
use ftl.Base.Word.{checked_add}
use ftl.Base.Ram.{load}
use ftl.Align.{is_aligned}
use ftl.Api.ErrorCode.{ErrorCode, out_of_memory, already_exists, invalid_arg, out_of_bounds}
use ftl.Arch.Direct.{min_page_size}

abbrev pub Act : Type 0 → Type 0 → Type 0
Act Store A = Store → Exec (Result A ErrorCode × Store)

-- What an address space uses: the areas it maps (VmArea), with what they share, and the page tables
-- (`arch::VmSpace`).
pub record Backend : Type 1 where
  -- a reference to an area, and the state of the areas, the allocator, the memory and the tables
  pub Area : Type 0
  pub Store : Type 0
  pub len : Area → ℕ
  pub read : Area → ℕ → ℕ → Act Store (List ℕ)
  pub ensure_page : Area → ℕ → Act Store ℕ
  -- `arch.map(uaddr, paddr, len, attrs)`
  pub arch_map : ℕ → ℕ → ℕ → ℕ → Act Store (Unit {0})

module _ {Store : Type 0} where
  infixl 5 ◌>>=◌
  abbrev pub ◌>>=◌ : {A B : Type 0} → Act Store A → (A → Act Store B) → Act Store B
  ◌>>=◌ m f s = elim (m s) [
    | done (ok a, s') ↦ f a s'
    | done (err e, s') ↦ done (err e, s')
    | panic ↦ panic
  ]

  abbrev pub return : {A : Type 0} → A → Act Store A
  return a s = done (ok a, s)

  abbrev pub fail : {A : Type 0} → ErrorCode → Act Store A
  fail e s = done (err e, s)

  -- What cannot fail, but may panic.
  abbrev pub lift : {A : Type 0} → Exec A → Act Store A
  lift m s = Base.◌>>=◌ m (λ a. done (ok a, s))

-- `UAddr::add`
abbrev pub add : ℕ → ℕ → Option ℕ
add uaddr offset = checked_add uaddr offset

module _ (b : Backend) where
  open b use {Area, Store, len, read, ensure_page, arch_map}

  pub record Mapping : Type 0 where
    pub start : ℕ
    pub end : ℕ
    pub vmarea : Area
    pub attrs : ℕ

  unfoldable pub overlaps_with : Mapping → ℕ → ℕ → Bool
  overlaps_with m start end = ltb start m.end && ltb m.start end

  unfoldable pub any_overlap : List Mapping → ℕ → ℕ → Bool
  unfolding overlaps_with
  any_overlap [] start end = false
  any_overlap (m ∷ ms) start end = overlaps_with m start end || any_overlap ms start end

  -- `partition_point`, on a list where those that pass the test come first.
  unfoldable pub partition_point : (Mapping → Bool) → List Mapping → ℕ
  partition_point test [] = 0
  partition_point test (m ∷ ms) = if test m then suc (partition_point test ms) else 0

  -- The loop of `map` over the pages.
  unfoldable pub map_pages : ℕ → ℕ → ℕ → Area → ℕ → Act Store (Unit {0})
  map_pages zero index uaddr area attrs = return tt
  map_pages (suc left) index uaddr area attrs = ensure_page area index >>= λ paddr.
      arch_map uaddr paddr min_page_size attrs >>= λ _.
      lift (unwrap (add uaddr min_page_size)) >>= λ uaddr'.
      map_pages left (index + 1) uaddr' area attrs

  -- `mappings.insert(insert_at, mapping)`
  unfoldable pub insert_mapping : List Mapping → Mapping → List Mapping
  unfolding partition_point
  insert_mapping ms m =
      let insert_at = partition_point (λ n. ltb n.start m.start) ms in
      take insert_at ms ++ m ∷ drop insert_at ms

  -- `reserved` says whether `try_reserve` finds the memory. The result is the new list.
  unfoldable pub map : Bool → List Mapping → Area → ℕ → ℕ → Act Store (List Mapping)
  map reserved ms area uaddr attrs = lift (is_aligned uaddr min_page_size) >>= λ aligned.
      if not aligned then fail invalid_arg else elim (add uaddr (len area)) [
        | none ↦ fail out_of_bounds
        | some end ↦
            if any_overlap ms uaddr end
            then fail already_exists
            else if not reserved
            then fail out_of_memory
            else (map_pages (len area / min_page_size) 0 uaddr area attrs >>= λ _. return (
                insert_mapping ms
                  (record { start = uaddr; end = end; vmarea = area; attrs = attrs })))
      ]

  -- The loop of `read_bytes`; what is left of the buffer stays as it is when the mappings run out.
  unfoldable pub read_mappings : List Mapping → ℕ → List ℕ → Act Store (List ℕ)
  read_mappings [] uaddr buf = return buf
  read_mappings (m ∷ ms) uaddr [] = return []
  read_mappings (m ∷ ms) uaddr (x ∷ xs) =
      if not (leb m.start uaddr && ltb uaddr m.end)
      then fail out_of_bounds
      else (let copy_len = min (length (x ∷ xs)) (m.end - uaddr) in
          read m.vmarea (uaddr - m.start) copy_len >>= λ chunk.
          lift (unwrap (add uaddr copy_len)) >>= λ uaddr'.
          read_mappings ms uaddr' (drop copy_len (x ∷ xs)) >>= λ rest. return (chunk ++ rest))

  unfoldable pub read_bytes : List Mapping → ℕ → List ℕ → Act Store (List ℕ)
  read_bytes ms uaddr [] = return []
  read_bytes ms uaddr (x ∷ xs) = elim (add uaddr (length (x ∷ xs))) [
    | none ↦ fail out_of_bounds
    | some _ ↦ elim (partition_point (λ m. leb m.start uaddr) ms) [
      | zero ↦ fail out_of_bounds
      | suc index ↦ read_mappings (drop index ms) uaddr (x ∷ xs)
    ]
  ]
