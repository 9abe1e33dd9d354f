-- ===== src/Arch/Tables/Reach.antt =====
-- `map` of kernel/src/arch/x64/vmspace.rs on its way to the last table.
use ftl.Base.{
  ℕ, suc, ◌^◌, ◌<◌, ◌≡◌, refl, ap, sym, ◌∙◌, arith, ◌⊎◌, inl, inr, Option, none, some, done, ok,
  err,
}
use ftl.Api.ErrorCode.{out_of_memory}
use ftl.Arch.Tables.{Pages, ◌>>?◌, ensure_next_table, set_entry, walk_and_set}
use ftl.Arch.Tables.Walk.{
  unit, slot, walk, Names, Serves, IsTree, Leads, walk-Leads, Leads-cong, pml4_index-slot,
  pdpt_index-slot, pdt_index-slot, pt_index-slot,
}
use ftl.Arch.Tables.Ensure.{IsSpace, Grows, Grows-trans, ensure_lem}
use ftl.Memory.Page.{Ram}

-- The tables on the way to the last one.
pub record Way (words : Ram) (root pdpt pdt pt v : ℕ) : Type 0 where
  pub first : Leads words 2 root v pdpt
  pub second : Leads words 1 pdpt v pdt
  pub third : Leads words 0 pdt v pt

pub walk-Way :
    {words : Ram} {root pdpt pdt pt v : ℕ}
    → Way words root pdpt pdt pt v
    → walk words 3 root v ≡ walk words 0 pt v
walk-Way {words} {root} {pdpt} {pdt} {pt} {v} w =
    walk-Leads words 2 root v pdpt w.first
    ∙ walk-Leads words 1 pdpt v pdt w.second
    ∙ walk-Leads words 0 pdt v pt w.third

-- A table on the way serves the unit of the address.
pub Leads-Serves :
    (words : Ram) (root : ℕ) (names : Names) (l t v next : ℕ)
    → IsTree words root names
    → v < 2 ^ 47
    → Serves names t (suc l) v
    → Leads words l t v next
    → Serves names next l v
Leads-Serves words root names l t v next tree low n leads =
    sym (ap names leads.2) ∙ (tree.child t l v n low leads.0).1

-- What the three calls of `ensure_next_table` come to.
abbrev pub Reached : ℕ → Names → Pages → ℕ → ℕ → ℕ → Type 0
Reached root names s v paddr attrs =
    (names' : Names) × (s' : Pages) × Grows root names s names' s'
    × (((pdpt pdt pt : ℕ) × (walk_and_set root v paddr attrs s
            ≡ set_entry pt (slot 0 v) paddr attrs s')
          × Way s'.words root pdpt pdt pt v
          × Serves names' pt 0 v)
        ⊎ ((walk_and_set root v paddr attrs s ≡ done (err out_of_memory, s'))
            × (walk s.words 3 root v ≡ none)))

-- The steps of `walk_and_set` in turn.
module _ (root v paddr attrs : ℕ) (s s1 : Pages) where
  stop_first :
      ensure_next_table root (slot 3 v) s ≡ done (err out_of_memory, s1)
      → walk_and_set root v paddr attrs s ≡ done (err out_of_memory, s1)
  unfolding walk_and_set
  stop_first e = rw (walk_and_set, pml4_index-slot v, e, ◌>>?◌) refl

  module _ (pdpt : ℕ) (s2 : Pages)
      (e1 : ensure_next_table root (slot 3 v) s ≡ done (ok pdpt, s1)) where
    stop_second :
        ensure_next_table pdpt (slot 2 v) s1 ≡ done (err out_of_memory, s2)
        → walk_and_set root v paddr attrs s ≡ done (err out_of_memory, s2)
    unfolding walk_and_set
    stop_second e = rw (walk_and_set, pml4_index-slot v, e1, ◌>>?◌, pdpt_index-slot v, e) refl

    module _ (pdt : ℕ) (s3 : Pages)
        (e2 : ensure_next_table pdpt (slot 2 v) s1 ≡ done (ok pdt, s2)) where
      stop_third :
          ensure_next_table pdt (slot 1 v) s2 ≡ done (err out_of_memory, s3)
          → walk_and_set root v paddr attrs s ≡ done (err out_of_memory, s3)
      unfolding walk_and_set
      stop_third e =
          rw
            (walk_and_set, pml4_index-slot v, e1, ◌>>?◌, pdpt_index-slot v, e2, pdt_index-slot v, e)
            refl

      all_three :
          (pt : ℕ)
          → ensure_next_table pdt (slot 1 v) s2 ≡ done (ok pt, s3)
          → walk_and_set root v paddr attrs s ≡ set_entry pt (slot 0 v) paddr attrs s3
      unfolding walk_and_set
      all_three pt e =
          rw
            (
              walk_and_set,
              pml4_index-slot v,
              e1,
              ◌>>?◌,
              pdpt_index-slot v,
              e2,
              pdt_index-slot v,
              e,
              pt_index-slot v,
            )
            refl

-- One unit of the top level is the whole lower half.
pub top_unit : (v : ℕ) → v < 2 ^ 47 → ◌≡◌ {A = Option (ℕ × ℕ)} (some (3, 0)) (some (3, unit 4 v))
top_unit v low = ap (λ (p : ℕ). some (3, p)) (omega arith)

module _ (root : ℕ) (names : Names) (s : Pages) (space : IsSpace root names s) (v paddr attrs : ℕ)
    (low : v < 2 ^ 47) where
  pub reach : Reached root names s v paddr attrs
  reach =
      let top : Serves names root 3 v = space.tree.top ∙ top_unit v low in
      let (n1, s1, g1, r1) = ensure_lem root names s space root 2 v top low in
      elim r1 [
        | inr (e, absent) ↦ (n1, s1, g1, inr (stop_first root v paddr attrs s s1 e, absent))
        | inl (pdpt, e1, served1, leads1) ↦
            let top1 = g1.kept root 3 (unit 4 v) top in
            let (n2, s2, g2, r2) = ensure_lem root n1 s1 g1.space pdpt 1 v served1 low in
            let leads1' =
              Leads-cong s1.words s2.words 2 root v pdpt (g2.stays v 2 root top1 leads1.0) leads1 in
            elim r2 [
              | inr (e, absent) ↦ (
                n2,
                s2,
                Grows-trans g1 g2,
                inr (
                  stop_second root v paddr attrs s s1 pdpt s2 e1 e,
                  sym (g1.same v 3 root low top)
                      ∙ walk-Leads s1.words 2 root v pdpt leads1
                      ∙ absent,
                ),
              )
              | inl (pdt, e2, served2, leads2) ↦
                  let top2 = g2.kept root 3 (unit 4 v) top1 in
                  let served1' = g2.kept pdpt 2 (unit 3 v) served1 in
                  let (n3, s3, g3, r3) = ensure_lem root n2 s2 g2.space pdt 0 v served2 low in
                  let g12 = Grows-trans g1 g2 in
                  elim r3 [
                    | inr (e, absent) ↦ (
                      n3,
                      s3,
                      Grows-trans g12 g3,
                      inr (
                        stop_third root v paddr attrs s s1 pdpt s2 e1 pdt s3 e2 e,
                        sym (g12.same v 3 root low top)
                            ∙ walk-Leads s2.words 2 root v pdpt leads1'
                            ∙ walk-Leads s2.words 1 pdpt v pdt leads2
                            ∙ absent,
                      ),
                    )
                    | inl (pt, e3, served3, leads3) ↦ (
                      n3,
                      s3,
                      Grows-trans g12 g3,
                      inl (
                        pdpt,
                        pdt,
                        pt,
                        all_three root v paddr attrs s s1 pdpt s2 e1 pdt s3 e2 pt e3,
                        record {
                          first =
                              Leads-cong s2.words s3.words 2 root v pdpt
                                (g3.stays v 2 root top2 leads1'.0) leads1';
                          second =
                              Leads-cong s2.words s3.words 1 pdpt v pdt
                                (g3.stays v 1 pdpt served1' leads2.0) leads2;
                          third = leads3;
                        },
                        served3,
                      ),
                    )
                  ]
            ]
      ]
