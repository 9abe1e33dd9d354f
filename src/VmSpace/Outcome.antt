-- ===== src/VmSpace/Outcome.antt =====
-- What `map` of kernel/src/vmspace.rs does to an address space, to the areas and to the page tables.
use ftl.Base.{
  ℕ, ◌+◌, ◌%◌, ◌≤◌, ◌<◌, ◌≡◌, ◌≢◌, ◌⊎◌, ltb, leb, if◌then◌else◌, ◌&&◌, Bool, false, none, some,
  List,
}
use ftl.Base.Word.{IsUsize}
use ftl.Api.ErrorCode.{ErrorCode, out_of_memory, already_exists, invalid_arg, out_of_bounds}
use ftl.Arch.Direct.{min_page_size}
use ftl.VmSpace.{Backend, Mapping}
use ftl.VmSpace.Mapped.{find, IsSpace}

module _ (b : Backend) where
  open b use {Area, Store, len}

  -- An address of a range that is mapped.
  abbrev pub SomeMapped : List (Mapping b) → ℕ → ℕ → Type 0
  SomeMapped ms start end =
      (x : ℕ) × (m : Mapping b) × (start ≤ x) × (x < end) × (find b ms x ≡ some m)

  -- Why a call is refused before any page.
  abbrev pub Refused : Bool → List (Mapping b) → Area → ℕ → ErrorCode → Type 0
  Refused reserved ms area uaddr e =
      ((e ≡ invalid_arg) × (uaddr % min_page_size ≢ 0))
      ⊎ (((e ≡ out_of_bounds) × (¬ (IsUsize (uaddr + len area))))
          ⊎ (((e ≡ already_exists) × SomeMapped ms uaddr (uaddr + len area))
              ⊎ ((e ≡ out_of_memory) × (reserved ≡ false))))

  -- The list after a call that maps `area` at `uaddr`.
  abbrev pub Maps : List (Mapping b) → Area → ℕ → ℕ → List (Mapping b) → Type 0
  Maps ms area uaddr attrs ms' =
      IsSpace b ms'
      × ((x : ℕ) → uaddr ≤ x → x < uaddr + len area → find b ms x ≡ none)
      × ((x : ℕ)
          → find b ms' x ≡ (
              if leb uaddr x && ltb x (uaddr + len area)
              then some
                  (record { start = uaddr; end = uaddr + len area; vmarea = area; attrs = attrs })
              else find b ms x))
