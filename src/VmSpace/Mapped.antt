-- ===== src/VmSpace/Mapped.antt =====
-- An address space of kernel/src/vmspace.rs as a partial function from addresses to mappings, and what a new mapping
-- does to it.
use ftl.Base.{
  ℕ, ◌≤◌, ◌<◌, ◌≡◌, refl, arith, ◌⊎◌, inl, inr, ltb, leb, if◌then◌else◌, ◌&&◌, Bool, true, false,
  Bool-cases, Option, none, some, List, [], ◌∷◌, All, All-mono, Ordered,
}
use ftl.VmSpace.{Backend, Mapping, any_overlap, insert_mapping}

module _ (b : Backend) where
  open b use {Area, Store, len, read, ensure_page, arch_map}

  abbrev pub within : Mapping b → ℕ → Bool
  within m x = leb m.start x && ltb x m.end

  -- The mapping that holds an address.
  unfoldable pub find : List (Mapping b) → ℕ → Option (Mapping b)
  find [] x = none
  find (m ∷ ms) x = if within m x then some m else find ms x

  abbrev pub Before : Mapping b → Mapping b → Type 0
  Before m n = m.end ≤ n.start

  -- No mapping is empty; they ascend and do not overlap.
  abbrev pub IsSpace : List (Mapping b) → Type 0
  IsSpace ms = All (λ m. m.start < m.end) ms × Ordered Before ms

  pub find-head :
      (m : Mapping b) (ms : List (Mapping b)) (x : ℕ) → within m x ≡ true → find (m ∷ ms) x ≡ some m
  unfolding find
  find-head m ms x e = rw e

  pub find-tail :
      (m : Mapping b) (ms : List (Mapping b)) (x : ℕ) → m.end ≤ x → find (m ∷ ms) x ≡ find ms x
  unfolding find
  find-tail m ms x h = let e : within m x ≡ false = ground arith in rw e

  -- Below the first mapping nothing is found.
  pub find-below :
      (ms : List (Mapping b)) (x y : ℕ) → All (λ m. y ≤ m.start) ms → x < y → find ms x ≡ none
  unfolding find
  find-below [] x y all h = refl
  find-below (m ∷ ms) x y all h =
      let e : within m x ≡ false = ground (arith, all.0) in rw e (find-below ms x y all.1 h)

  insert_mapping-cons :
      (n : Mapping b) (ns : List (Mapping b)) (m : Mapping b)
      → insert_mapping b (n ∷ ns) m
        ≡ (if ltb n.start m.start then n ∷ insert_mapping b ns m else m ∷ n ∷ ns)
  unfolding insert_mapping
  insert_mapping-cons n ns m = elim (Bool-cases (ltb n.start m.start)) [
    | inl e ↦ rw e
    | inr e ↦ rw e
  ]

  insert_mapping-nil : (m : Mapping b) → insert_mapping b [] m ≡ m ∷ []
  unfolding insert_mapping
  insert_mapping-nil m = refl

  All-insert :
      (P : Mapping b → Type 0) (ms : List (Mapping b)) (m : Mapping b)
      → All P ms
      → P m
      → All P (insert_mapping b ms m)
  All-insert P [] m all p = rw (insert_mapping-nil m) (p, tt)
  All-insert P (n ∷ ns) m all p = elim (Bool-cases (ltb n.start m.start)) [
    | inl e ↦ rw (insert_mapping-cons n ns m, e) (all.0, All-insert P ns m all.1 p)
    | inr e ↦ rw (insert_mapping-cons n ns m, e) (p, all)
  ]

  any_overlap-cons :
      (n : Mapping b) (ns : List (Mapping b)) (start end : ℕ)
      → any_overlap b (n ∷ ns) start end ≡ false
      → ((n.end ≤ start) ⊎ (end ≤ n.start)) × (any_overlap b ns start end ≡ false)
  unfolding any_overlap
  any_overlap-cons n ns start end h = elim (Bool-cases (ltb start n.end)) [
    | inr e ↦ (inl (ground arith), rw e at h)
    | inl e ↦ elim (Bool-cases (ltb n.start end)) [
      | inr f ↦ (inr (ground arith), rw (e, f) at h)
      | inl f ↦ absurd (ground arith)
    ]
  ]

  module _ (m : Mapping b) (full : m.start < m.end) where
    pub insert-IsSpace :
        (ms : List (Mapping b))
        → IsSpace ms
        → any_overlap b ms m.start m.end ≡ false
        → IsSpace (insert_mapping b ms m)
    insert-IsSpace [] space free = rw (insert_mapping-nil m) ((full, tt), (tt, tt))
    insert-IsSpace (n ∷ ns) space free =
        let (apart, free') = any_overlap-cons n ns m.start m.end free in
        elim (Bool-cases (ltb n.start m.start)) [
          | inl e ↦
              let below : n.end ≤ m.start = elim apart [
                | inl h ↦ h
                | inr h ↦ absurd (ground arith)
              ] in
              let (full', ordered') = insert-IsSpace ns (space.0.1, space.1.1) free' in
              rw (insert_mapping-cons n ns m, e)
                (
                  (space.0.0, full'),
                  (All-insert (λ k. n.end ≤ k.start) ns m space.1.0 below, ordered'),
                )
          | inr e ↦
              let above : m.end ≤ n.start = elim apart [
                | inl h ↦ absurd (ground (arith, space.0.0))
                | inr h ↦ h
              ] in
              rw (insert_mapping-cons n ns m, e)
                (
                  (full, space.0),
                  ((above, All-mono ns (λ k h. omega (arith, space.0.0)) space.1.0), space.1),
                )
        ]

    pub find-insert :
        (ms : List (Mapping b)) (x : ℕ)
        → IsSpace ms
        → any_overlap b ms m.start m.end ≡ false
        → find (insert_mapping b ms m) x ≡ (if within m x then some m else find ms x)
    unfolding find
    find-insert [] x space free = rw (insert_mapping-nil m) refl
    find-insert (n ∷ ns) x space free =
        let (apart, free') = any_overlap-cons n ns m.start m.end free in
        let ih = find-insert ns x (space.0.1, space.1.1) free' in
        elim (Bool-cases (ltb n.start m.start)) [
          | inl e ↦
              rw (insert_mapping-cons n ns m, e, ih)
                (elim (Bool-cases (within m x)) [
                  | inl p ↦
                      let other : within n x ≡ false = elim apart [
                        | inl h ↦ ground arith
                        | inr h ↦ ground arith
                      ] in
                      rw (p, other)
                  | inr p ↦ rw p
                ])
          | inr e ↦ rw (insert_mapping-cons n ns m, e) refl
        ]

  -- Where nothing overlaps, nothing was mapped.
  pub free-find :
      (ms : List (Mapping b)) (start end x : ℕ)
      → any_overlap b ms start end ≡ false
      → start ≤ x
      → x < end
      → find ms x ≡ none
  unfolding find
  free-find [] start end x free lo hi = refl
  free-find (n ∷ ns) start end x free lo hi =
      let (apart, free') = any_overlap-cons n ns start end free in
      let ih = free-find ns start end x free' lo hi in
      elim apart [ inl h ↦ ground arith | inr h ↦ ground arith ]
