-- ===== src/Arch/Tables/Map.antt =====
-- `map` of kernel/src/arch/x64/vmspace.rs: one page is mapped, and all other translations stay.
use ftl.Base.{
  ℕ, ◌/◌, ◌%◌, ◌^◌, ◌<◌, ◌≡◌, ◌≢◌, refl, ap, sym, ◌∙◌, arith, ◌⊎◌, inl, inr, leb, ==_iff, true,
  false, Bool-cases, none, some, done, Result, ok, err, bit_or,
}
use ftl.Api.ErrorCode.{ErrorCode, out_of_memory, already_exists}
use ftl.Arch.Direct.{kernel_base}
use ftl.Arch.Paging
use ftl.Arch.Paging.{pte_v, pte_u, is_present, is_huge, new_fields}
use ftl.Arch.Tables.{Pages, entry_at, set_entry, walk_and_set, map}
use ftl.Arch.Tables.Walk.{slot, walk, Names, Serves, walk-absent, walk-leaf, Leads-cong}
use ftl.Arch.Tables.Ensure.{IsSpace, Elsewhere, Grows}
use ftl.Memory.Page.{Ram}
use ftl.Memory.Page.Runs.{is_aligned-page}
use ftl.Arch.Tables.Leaf.{
  leaf_flags, leaf_flags_lem, with_leaf, with_leaf-here, with_leaf-IsWritten, set_entry-absent,
  set_entry-present,
}
use ftl.Arch.Tables.Reach.{Way, walk-Way, Leads-Serves, top_unit, reach}

-- What `map` has done to the space.
pub record Keeps (root : ℕ) (s : Pages) (v : ℕ) (names' : Names) (s' : Pages) : Type 0 where
  pub space : IsSpace root names' s'
  pub others :
      (v' : ℕ)
      → v' < 2 ^ 47
      → v' / 4096 ≢ v / 4096
      → walk s'.words 3 root v' ≡ walk s.words 3 root v'
  pub outside : (x : ℕ) → Elsewhere names' x → s'.words x ≡ s.words x

-- The answer of `map`, and the translation of its address.
abbrev pub Answers : ℕ → Pages → ℕ → ℕ → ℕ → Pages → Result (Unit {0}) ErrorCode → Type 0
Answers root s v paddr attrs s' r =
    ((entry : ℕ) × (r ≡ ok tt)
      × (Paging.new paddr (bit_or (bit_or pte_v pte_u) attrs) ≡ done entry)
      × (Paging.paddr entry ≡ paddr)
      × (walk s.words 3 root v ≡ none)
      × (walk s'.words 3 root v ≡ some entry))
    ⊎ ((walk s'.words 3 root v ≡ walk s.words 3 root v)
        × (((r ≡ err already_exists) × (old : ℕ) × (walk s.words 3 root v ≡ some old))
            ⊎ ((r ≡ err out_of_memory) × (walk s.words 3 root v ≡ none))))

module _ (root : ℕ) (names : Names) (s : Pages) (space : IsSpace root names s) (v paddr attrs : ℕ)
    (low : v < 2 ^ 47) (whole : paddr % 4096 ≡ 0) (small : paddr < 2 ^ 52)
    (flags : attrs < 4096) where
  abbrev Outcome : Type 0
  Outcome =
      (r : Result (Unit {0}) ErrorCode) × (names' : Names) × (s' : Pages) × (walk_and_set root v
          paddr attrs s
        ≡ done (r, s'))
      × Keeps root s v names' s'
      × Answers root s v paddr attrs s' r

  top : Serves names root 3 v
  top = space.tree.top ∙ top_unit v low

  Grows-Keeps :
      (names' : Names) (s' : Pages) → Grows root names s names' s' → Keeps root s v names' s'
  Grows-Keeps names' s' g = record {
    space = g.space;
    others = λ v' low' ne. g.same v' 3 root low' (space.tree.top ∙ top_unit v' low');
    outside = g.outside;
  }

  module _ (names' : Names) (s' : Pages) (g : Grows root names s names' s') (pdpt pdt pt : ℕ)
      (run : walk_and_set root v paddr attrs s ≡ set_entry pt (slot 0 v) paddr attrs s')
      (way : Way s'.words root pdpt pdt pt v) (served : Serves names' pt 0 v) where
    at_top : (v' : ℕ) → v' < 2 ^ 47 → Serves names' root 3 v'
    at_top v' low' = g.space.tree.top ∙ top_unit v' low'

    -- The leaf does not change the way.
    keep-Way :
        (entry : ℕ)
        → Way (with_leaf root names' s' g.space pt v served entry).words root pdpt pdt pt v
    keep-Way entry =
        let tree = g.space.tree in
        let set = with_leaf-IsWritten root names' s' g.space pt v served entry in
        let words : Ram = (with_leaf root names' s' g.space pt v served entry).words in
        let second =
          Leads-Serves s'.words root names' 2 root v pdpt tree low (at_top v low) way.first in
        let third = Leads-Serves s'.words root names' 1 pdpt v pdt tree low second way.second in
        record {
          first =
              Leads-cong s'.words words 2 root v pdpt (set.stays v 2 root (at_top v low)) way.first;
          second = Leads-cong s'.words words 1 pdpt v pdt (set.stays v 1 pdpt second) way.second;
          third = Leads-cong s'.words words 0 pdt v pt (set.stays v 0 pdt third) way.third;
        }

    mapped_before : is_present (s'.words (entry_at pt (slot 0 v))) ≡ true → Outcome
    mapped_before present =
        let same = g.same v 3 root low top in
        (
          err already_exists,
          names',
          s',
          run ∙ set_entry-present pt (slot 0 v) paddr attrs s' (omega arith) present,
          Grows-Keeps names' s' g,
          inr (
            same,
            inl (
              refl,
              s'.words (entry_at pt (slot 0 v)),
              sym same ∙ walk-Way way ∙ walk-leaf s'.words pt v present,
            ),
          ),
        )

    mapped_now : is_present (s'.words (entry_at pt (slot 0 v))) ≡ false → Outcome
    mapped_now absent =
        let (bound, odd) = leaf_flags_lem attrs flags in
        let (entry, made, frame, present, _) =
          new_fields paddr (leaf_flags attrs) whole small bound in
        let now : is_present entry ≡ true = present ∙ (==_iff (leaf_flags attrs % 2) 1).1 odd in
        let set = with_leaf-IsWritten root names' s' g.space pt v served entry in
        let after : Pages = with_leaf root names' s' g.space pt v served entry in
        let here : after.words (entry_at pt (slot 0 v)) ≡ entry =
          with_leaf-here root names' s' g.space pt v served entry in
        let way' = keep-Way entry in
        (
          ok tt,
          names',
          after,
          run ∙ set_entry-absent pt (slot 0 v) paddr attrs entry s' (omega arith) absent made,
          record {
            space = set.space;
            others = λ v' low' ne.
                set.others v' 3 root low' ne (at_top v' low')
                ∙ g.same v' 3 root low' (space.tree.top ∙ top_unit v' low');
            outside = λ x e. set.outside x e ∙ g.outside x e;
          },
          inl (
            entry,
            refl,
            made,
            frame,
            sym (g.same v 3 root low top) ∙ walk-Way way ∙ walk-absent s'.words 0 pt v absent,
            walk-Way way'
                ∙ walk-leaf after.words pt v (ap is_present here ∙ now)
                ∙ ap (λ (x : ℕ). some x) here,
          ),
        )

  walk_and_set_lem : Outcome
  walk_and_set_lem =
      let (names', s', g, r) = reach root names s space v paddr attrs low in
      elim r [
        | inr (e, none_there) ↦ (
          err out_of_memory,
          names',
          s',
          e,
          Grows-Keeps names' s' g,
          inr (g.same v 3 root low top, inr (refl, none_there)),
        )
        | inl (pdpt, pdt, pt, run, way, served) ↦
            elim (Bool-cases (is_present (s'.words (entry_at pt (slot 0 v))))) [
              | inl present ↦ mapped_before names' s' g pdpt pdt pt run way served present
              | inr absent ↦ mapped_now names' s' g pdpt pdt pt run way served absent
            ]
      ]

-- `map` of an aligned page of the lower half.
map-aligned :
    (root v paddr len attrs : ℕ) (s : Pages)
    → v % 4096 ≡ 0
    → paddr % 4096 ≡ 0
    → len % 4096 ≡ 0
    → v < 2 ^ 47
    → map root v paddr len attrs s ≡ walk_and_set root v paddr attrs s
unfolding map
map-aligned root v paddr len attrs s a b c low =
    let user : leb kernel_base v ≡ false = ground arith in
    rw
      (
        map,
        is_aligned-page v,
        is_aligned-page paddr,
        is_aligned-page len,
        (==_iff (v % 4096) 0).1 a,
        (==_iff (paddr % 4096) 0).1 b,
        (==_iff (len % 4096) 0).1 c,
        user,
      )
      refl

pub map-Keeps :
    (root v paddr len attrs : ℕ) (names : Names) (s : Pages)
    → IsSpace root names s
    → v % 4096 ≡ 0
    → paddr % 4096 ≡ 0
    → len % 4096 ≡ 0
    → v < 2 ^ 47
    → paddr < 2 ^ 52
    → attrs < 4096
    → (r : Result (Unit {0}) ErrorCode) × (names' : Names) × (s' : Pages) × (map root v paddr len
          attrs s
        ≡ done (r, s'))
      × Keeps root s v names' s'
      × Answers root s v paddr attrs s' r
map-Keeps root v paddr len attrs names s space a b c low small flags =
    let (r, names', s', run, keeps, answers) =
      walk_and_set_lem root names s space v paddr attrs low b small flags in
    (r, names', s', map-aligned root v paddr len attrs s a b c low ∙ run, keeps, answers)
