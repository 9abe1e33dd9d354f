-- ===== src/Tests/Areas.antt =====
-- A memory area of two pages, and an address space of two mappings.
use ftl.Base.{
  ℕ, zero, suc, ◌+◌, ◌≤◌, ◌<◌, ◌≡◌, ◌⊎◌, inl, inr, refl, arith, ltb, Bool-cases, none, some, List,
  [], ◌∷◌, ◌++◌, drop, get_elem?, done, err,
}
use ftl.Base.Ram.{load}
use ftl.Api.ErrorCode.{ErrorCode, out_of_bounds}
use ftl.VmArea.{State, write, read}
use ftl.VmArea.Fill.{IsValid}
use ftl.VmArea.Access.{Written, Fetched, write_lem, read_lem}
use ftl.VmSpace
use ftl.VmSpace.{Backend, Mapping}
use ftl.VmSpace.Mapped.{find, IsSpace}
use ftl.VmSpace.Areas.{Memory, Area, kernel_areas, AreasValid, kernel_areas-Areas}
use ftl.VmSpace.Read
use ftl.VmSpace.Read.{Areas, memory, Covered}
use ftl.VmSpace.Bytes.{read_bytes-Covered, read_bytes-past_end}

abbrev fresh : State
fresh = record {
  pages = none ∷ none ∷ [];
  pool = record { regions = record { start = 0x100000; next = 0x108000 } ∷ [] };
  ram = λ x. 0xcc;
}

no_page : (i p : ℕ) → get_elem? fresh.pages i ≡ some (some p) → ⊥
no_page zero p e = cc
no_page (suc zero) p e = cc
no_page (suc (suc i)) p e = cc

fresh-IsValid : IsValid fresh
fresh-IsValid = record {
  aligned = λ i p e. absurd (no_page i p e);
  mapped = λ i p e. absurd (no_page i p e);
  own = λ i p x e. absurd (no_page i p e);
  distinct = λ i j p e. absurd (no_page i p e);
  small = omega arith;
  separate = λ x. ((λ i l. l), tt);
  direct = λ x. elim [ inl h ↦ omega arith | inr h ↦ absurd h ];
}

write_lem_example :
    ((8192 < 4094 + 4)
      × (write 8192 4094 (1 ∷ 2 ∷ 3 ∷ 4 ∷ []) fresh ≡ done (err out_of_bounds, fresh)))
    ⊎ ((4094 + 4 ≤ 8192)
        × Written fresh 4094 (1 ∷ 2 ∷ 3 ∷ 4 ∷ []) (write 8192 4094 (1 ∷ 2 ∷ 3 ∷ 4 ∷ []) fresh))
write_lem_example = write_lem fresh 8192 4094 (1 ∷ 2 ∷ 3 ∷ 4 ∷ []) fresh-IsValid refl (omega arith)

read_lem_example :
    ((8192 < 8190 + 4) × (read 8192 8190 4 fresh ≡ done (err out_of_bounds, fresh)))
    ⊎ ((8190 + 4 ≤ 8192) × Fetched fresh 8190 4 (read 8192 8190 4 fresh))
read_lem_example = read_lem fresh 8192 8190 4 fresh-IsValid refl (omega arith)

-- An address space over two areas of one page each, on these pages.
abbrev first_area : Area 2
first_area = record { first = 0; count = 1; inside = omega arith }

abbrev second_area : Area 2
second_area = record { first = 1; count = 1; inside = omega arith }

abbrev memory_of_two : Memory
memory_of_two = record { areas = fresh; table = λ u. none }

memory_of_two-AreasValid : AreasValid 2 memory_of_two
memory_of_two-AreasValid = (fresh-IsValid, omega arith)

abbrev two_areas : Backend
two_areas = kernel_areas 2

abbrev their_bytes : Areas two_areas
their_bytes = kernel_areas-Areas 2 (omega arith)

abbrev low : Mapping two_areas
low = record { start = 0x1000; end = 0x2000; vmarea = first_area; attrs = 1 }

abbrev high : Mapping two_areas
high = record { start = 0x2000; end = 0x3000; vmarea = second_area; attrs = 1 }

abbrev space : List (Mapping two_areas)
space = low ∷ high ∷ []

space-IsSpace : IsSpace two_areas space
space-IsSpace = omega arith

space-Covered : Covered two_areas their_bytes space 0x1ffe 4
unfolding find
space-Covered i lt = elim (Bool-cases (ltb i 2)) [
  | inl e ↦ (low, ground arith)
  | inr e ↦ (high, ground arith)
]

read_bytes-Covered_example :
    Read.Fetched two_areas their_bytes memory_of_two
      (load (memory two_areas their_bytes space memory_of_two) 0x1ffe 4)
      (VmSpace.read_bytes two_areas space 0x1ffe (0 ∷ 0 ∷ 0 ∷ 0 ∷ []) memory_of_two)
read_bytes-Covered_example =
    read_bytes-Covered two_areas their_bytes space 0x1ffe (0 ∷ 0 ∷ 0 ∷ 0 ∷ []) memory_of_two
      memory_of_two-AreasValid space-IsSpace (omega arith) space-Covered (omega arith)

read_bytes-past_end_example :
    Read.Fetched two_areas their_bytes memory_of_two
      (load (memory two_areas their_bytes (low ∷ []) memory_of_two) 0x1ffe 2
        ++ drop 2 (5 ∷ 6 ∷ 7 ∷ 8 ∷ []))
      (VmSpace.read_bytes two_areas (low ∷ []) 0x1ffe (5 ∷ 6 ∷ 7 ∷ 8 ∷ []) memory_of_two)
read_bytes-past_end_example =
    read_bytes-past_end two_areas their_bytes low 0x1ffe (5 ∷ 6 ∷ 7 ∷ 8 ∷ []) memory_of_two
      memory_of_two-AreasValid refl refl (omega arith) (omega arith)
