-- ===== src/Memory/Visit.antt =====
-- `visit_unused_regions` of kernel/src/memory.rs: the parts of a RAM region that no reserved region
-- covers. The calls of `f` are returned as a list, in their order.
pub mod Exact
pub mod Ascend
use ftl.Base.{ℕ, ◌*◌, ltb, leb, if◌then◌else◌, Bool, true, false, List, [], ◌∷◌, ◌++◌, min}

-- `Range<PAddr>`
pub record Range : Type 0 where
  pub start : ℕ
  pub end : ℕ

abbrev pub range : ℕ → ℕ → Range
range start end = record { start = start; end = end }

-- `DIRECT_MAP_END` of the x64 port: 4 GiB.
abbrev pub direct_map_end : ℕ
direct_map_end = 4 * (1024 * 1024 * 1024)

-- What follows the loop.
unfoldable pub visit_last : ℕ → ℕ → List Range
visit_last cursor end = if ltb cursor end then range cursor end ∷ [] else []

-- The gap before a reserved region.
unfoldable pub visit_gap : ℕ → Range → List Range
visit_gap cursor reserved =
    if ltb cursor reserved.start then range cursor reserved.start ∷ [] else []

-- The loop, with its early return, its `continue` and its `break`.
unfoldable pub visit_loop : ℕ → ℕ → List Range → List Range
unfolding visit_last visit_gap
visit_loop cursor end [] = visit_last cursor end
visit_loop cursor end (reserved ∷ rest) = elim (leb end cursor) [
  | true ↦ []
  | false ↦ elim (leb reserved.end cursor) [
    | true ↦ visit_loop cursor end rest
    | false ↦ elim (leb end reserved.start) [
      | true ↦ visit_last cursor end
      | false ↦ visit_gap cursor reserved ++ visit_loop reserved.end end rest
    ]
  ]
]

unfoldable pub visit_unused_regions : ℕ → ℕ → List Range → List Range
unfolding visit_loop
visit_unused_regions addr end reserved = visit_loop addr (min end direct_map_end) reserved
