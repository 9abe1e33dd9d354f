-- ===== src/Memory/Visit/Ascend.antt =====
-- The ranges that `visit_unused_regions` finds are not empty, ascend and do not overlap.
use ftl.Base.{
  ℕ, ◌≤◌, ◌<◌, arith, ltb, leb, ltb→lt, Bool-cases, inl, inr, List, [], ◌∷◌, ◌++◌, min, All,
  All-mono, Ordered,
}
use ftl.Memory.Visit.{
  Range, direct_map_end, visit_last, visit_gap, visit_loop, visit_unused_regions,
}

-- A range that is not empty, between the two bounds.
abbrev pub Inside : ℕ → ℕ → Range → Type 0
Inside lo hi r = (lo ≤ r.start) × (r.start < r.end) × (r.end ≤ hi)

abbrev pub Ascending : ℕ → ℕ → List Range → Type 0
Ascending lo hi rs = All (Inside lo hi) rs × Ordered (λ r s. r.end ≤ s.start) rs

abbrev pub NoneInverted : List Range → Type 0
NoneInverted = All λ r. r.start ≤ r.end

visit_last-Ascending : (cursor end : ℕ) → Ascending cursor end (visit_last cursor end)
unfolding visit_last
visit_last-Ascending cursor end = elim (Bool-cases (ltb cursor end)) [
  | inl found ↦ rw found ((omega (arith, ltb→lt cursor end found), tt), (tt, tt))
  | inr none ↦ rw none (tt, tt)
]

Ascending-lower :
    (lo lo' hi : ℕ) (rs : List Range) → lo ≤ lo' → Ascending lo' hi rs → Ascending lo hi rs
Ascending-lower lo lo' hi rs h a = (All-mono rs (λ r i. (omega arith, i.1, i.2)) a.0, a.1)

gap-Ascending :
    (cursor end : ℕ) (r : Range) (rest : List Range)
    → cursor < r.end
    → r.start ≤ r.end
    → r.start < end
    → Ascending r.end end rest
    → Ascending cursor end (visit_gap cursor r ++ rest)
unfolding visit_gap
gap-Ascending cursor end r rest h inv below a = elim (Bool-cases (ltb cursor r.start)) [
  | inl gap ↦ rw gap (
    (
      (omega (arith, ltb→lt cursor r.start gap)),
      (Ascending-lower cursor r.end end rest (omega arith) a).0,
    ),
    (All-mono rest (λ s i. omega arith) a.0, a.1),
  )
  | inr none ↦ rw none (Ascending-lower cursor r.end end rest (omega arith) a)
]

visit_loop-Ascending :
    (cursor end : ℕ) (rs : List Range)
    → NoneInverted rs
    → Ascending cursor end (visit_loop cursor end rs)
unfolding visit_loop
visit_loop-Ascending cursor end [] inv = visit_last-Ascending cursor end
visit_loop-Ascending cursor end (r ∷ rs) inv = elim (Bool-cases (leb end cursor)) [
  | inl done ↦ rw (done, All, Ordered) (tt, tt)
  | inr more ↦
      rw (more, All, Ordered)
        (elim (Bool-cases (leb r.end cursor)) [
          | inl skip ↦ rw (skip, All, Ordered) (visit_loop-Ascending cursor end rs inv.1)
          | inr keep ↦
              rw (keep, All, Ordered)
                (elim (Bool-cases (leb end r.start)) [
                  | inl stop ↦ rw (stop, All, Ordered) (visit_last-Ascending cursor end)
                  | inr go ↦
                      rw (go, All, Ordered)
                        (gap-Ascending cursor end r (visit_loop r.end end rs) (ground arith) inv.0
                          (ground arith) (visit_loop-Ascending r.end end rs inv.1))
                ])
        ])
]

-- Given reserved regions that are not inverted, the visited ranges lie between the start of the RAM
-- region and its end, or the end of the direct map; none is empty, and each ends before the next
-- begins.
pub visit_unused_regions-Ascending :
    (addr end : ℕ) (rs : List Range)
    → NoneInverted rs
    → Ascending addr (min end direct_map_end) (visit_unused_regions addr end rs)
unfolding visit_unused_regions
visit_unused_regions-Ascending addr end rs inv =
    visit_loop-Ascending addr (min end direct_map_end) rs inv
