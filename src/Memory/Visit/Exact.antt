-- ===== src/Memory/Visit/Exact.antt =====
-- `visit_unused_regions` finds exactly the unreserved addresses, in ascending ranges.
use ftl.Base.{
  ℕ, ◌≤◌, ◌<◌, ◌⊎◌, inl, inr, ◌↔◌, arith, leb, Bool-cases, leb→le, List, [], ◌∷◌, ◌++◌, min, All,
  Ordered,
}
use native.Mathlib.Decide.{dec_lt}
use ftl.Memory.Visit.{
  Range, direct_map_end, visit_last, visit_gap, visit_loop, visit_unused_regions,
}

abbrev pub In : ℕ → Range → Type 0
In x r = (r.start ≤ x) × (x < r.end)

-- The address lies in one of the ranges.
abbrev pub InSome : ℕ → List Range → Type 0
InSome x [] = ⊥
InSome x (r ∷ rs) = In x r ⊎ InSome x rs

-- No range is inverted, and their starts ascend.
abbrev pub StartsAscend : List Range → Type 0
StartsAscend rs = All (λ r. r.start ≤ r.end) rs × Ordered (λ r s. r.start ≤ s.start) rs

pub InSome-append : (x : ℕ) (rs ss : List Range) → InSome x (rs ++ ss) ↔ (InSome x rs ⊎ InSome x ss)
InSome-append x [] ss = (inr, elim [ inl h ↦ absurd h | inr h ↦ h ])
InSome-append x (r ∷ rs) ss = (
  elim [
    | inl h ↦ inl (inl h)
    | inr h ↦ elim ((InSome-append x rs ss).0 h) [ inl a ↦ inl (inr a) | inr b ↦ inr b ]
  ],
  elim [
    | inl a ↦ elim a [ inl h ↦ inl h | inr h ↦ inr ((InSome-append x rs ss).1 (inl h)) ]
    | inr b ↦ inr ((InSome-append x rs ss).1 (inr b))
  ],
)

-- Beyond the last start below `end` nothing is reserved.
not_above : (x lo : ℕ) (rs : List Range) → All (λ r. lo ≤ r.start) rs → x < lo → ¬ (InSome x rs)
not_above x lo [] h lt i = i
not_above x lo (r ∷ rs) h lt (inl i) = omega arith
not_above x lo (r ∷ rs) h lt (inr i) = not_above x lo rs h.1 lt i

-- What the loop owes from `cursor` on.
abbrev Free : ℕ → ℕ → ℕ → List Range → Type 0
Free x cursor end rs = (cursor ≤ x) × (x < end) × (¬ (InSome x rs))

pub iff_trans {ℓ} : {A B C : Type ℓ} → A ↔ B → B ↔ C → A ↔ C
iff_trans p q = (λ a. q.0 (p.0 a), λ c. p.1 (q.1 c))

either_iff : {A B C D : Type 0} → A ↔ B → C ↔ D → (A ⊎ C) ↔ (B ⊎ D)
either_iff p q = (
  elim [ inl a ↦ inl (p.0 a) | inr c ↦ inr (q.0 c) ],
  elim [ inl b ↦ inl (p.1 b) | inr d ↦ inr (q.1 d) ],
)

visit_last-exact :
    (x cursor end : ℕ) → InSome x (visit_last cursor end) ↔ ((cursor ≤ x) × (x < end))
unfolding visit_last
visit_last-exact x cursor end = (ground arith, ground arith)

visit_gap-exact :
    (x cursor : ℕ) (r : Range) → InSome x (visit_gap cursor r) ↔ ((cursor ≤ x) × (x < r.start))
unfolding visit_gap
visit_gap-exact x cursor r = (ground arith, ground arith)

module _ (x cursor end : ℕ) (r : Range) (rs : List Range) (asc : StartsAscend (r ∷ rs)) where
  -- The reserved region ends before the cursor.
  skipped : r.end ≤ cursor → Free x cursor end rs ↔ Free x cursor end (r ∷ rs)
  skipped h = (
    λ f. (f.0, f.1, elim [ inl i ↦ omega arith | inr i ↦ f.2 i ]),
    λ f. (f.0, f.1, λ i. f.2 (inr i)),
  )

  -- It starts after the end, and so do all that follow.
  beyond : end ≤ r.start → ((cursor ≤ x) × (x < end)) ↔ Free x cursor end (r ∷ rs)
  beyond h = (
    λ b. (
      b.0,
      b.1,
      elim [ inl i ↦ omega arith | inr i ↦ not_above x r.start rs asc.1.0 (omega arith) i ],
    ),
    λ f. (f.0, f.1),
  )

  -- It cuts the range in two.
  cut :
      cursor < end
      → cursor < r.end
      → r.start < end
      → (((cursor ≤ x) × (x < r.start)) ⊎ Free x r.end end rs) ↔ Free x cursor end (r ∷ rs)
  cut hc he hs = (
    elim [
      | inl b ↦ (
        b.0,
        omega arith,
        elim [ inl i ↦ omega arith | inr i ↦ not_above x r.start rs asc.1.0 b.1 i ],
      )
      | inr f ↦ (omega arith, f.1, elim [ inl i ↦ omega arith | inr i ↦ f.2 i ])
    ],
    λ f. elim (dec_lt x r.start) [
      | yes before ↦ inl (f.0, before)
      | no after ↦ elim (dec_lt x r.end) [
        | yes inside ↦ absurd (f.2 (inl (omega arith, inside)))
        | no past ↦ inr (omega arith, f.1, λ i. f.2 (inr i))
      ]
    ],
  )

visit_loop-exact :
    (x cursor end : ℕ) (rs : List Range)
    → StartsAscend rs
    → InSome x (visit_loop cursor end rs) ↔ Free x cursor end rs
unfolding visit_loop
visit_loop-exact x cursor end [] asc = (
  λ i. let b = (visit_last-exact x cursor end).0 i in (b.0, b.1, λ none. none),
  λ f. (visit_last-exact x cursor end).1 (f.0, f.1),
)
visit_loop-exact x cursor end (r ∷ rs) asc = elim (Bool-cases (leb end cursor)) [
  | inl done ↦ rw (done, InSome) ((λ i. absurd i), λ f. ground arith)
  | inr more ↦
      rw (more, InSome)
        (elim (Bool-cases (leb r.end cursor)) [
          | inl skip ↦
              rw (skip, InSome)
                (iff_trans (visit_loop-exact x cursor end rs (asc.0.1, asc.1.1))
                  (skipped x cursor end r rs asc (leb→le _ _ skip)))
          | inr keep ↦
              rw (keep, InSome)
                (elim (Bool-cases (leb end r.start)) [
                  | inl stop ↦
                      rw (stop, InSome)
                        (iff_trans (visit_last-exact x cursor end)
                          (beyond x cursor end r rs asc (leb→le _ _ stop)))
                  | inr go ↦
                      rw (go, InSome)
                        (iff_trans (InSome-append x (visit_gap cursor r) (visit_loop r.end end rs))
                          (iff_trans
                            (either_iff (visit_gap-exact x cursor r)
                              (visit_loop-exact x r.end end rs (asc.0.1, asc.1.1)))
                            (cut x cursor end r rs asc (ground arith) (ground arith)
                              (ground arith))))
                ])
        ])
]

-- Given reserved regions that are not inverted and ascend by their starts, the ranges that are
-- visited hold exactly the addresses of the RAM region that lie in the direct map and in no
-- reserved region.
pub visit_unused_regions-exact :
    (x addr end : ℕ) (rs : List Range)
    → StartsAscend rs
    → InSome x (visit_unused_regions addr end rs)
      ↔ ((addr ≤ x) × (x < min end direct_map_end) × (¬ (InSome x rs)))
unfolding visit_unused_regions
visit_unused_regions-exact x addr end rs asc =
    visit_loop-exact x addr (min end direct_map_end) rs asc
