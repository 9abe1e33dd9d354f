-- ===== src/Arch/Tables/Walk.antt =====
-- Translation by the tables, as the processor walks them, and the tree that the tables of an address space form.
use ftl.Base.{
  ℕ, zero, suc, ◌/◌, ◌%◌, ◌^◌, ◌<◌, ◌≡◌, refl, ap, sym, ◌∙◌, arith, ◌⊎◌, inl, inr, if◌then◌else◌,
  true, false, Bool-cases, Option, none, some,
}
use ftl.Base.Bits.{bit_and_mask}
use ftl.Memory.Page.{Ram}
use ftl.Arch.Direct.{paddr2vaddr}
use ftl.Arch.Paging.{is_present, is_huge, paddr, pml4_index, pdpt_index, pdt_index, pt_index}
use ftl.Arch.Tables.{entry_at}

-- The number of the page of an address, and above it of each larger unit. A table of level `l` has entries for units of
-- level `l`, and serves one unit of level `l + 1`.
abbrev pub unit : ℕ → ℕ → ℕ
unit zero v = v / 4096
unit (suc l) v = unit l v / 512

abbrev pub slot : ℕ → ℕ → ℕ
slot l v = unit l v % 512

-- The entry that maps `v`, from a table of level `l` on: one that is huge ends the walk, and so does the last level.
unfoldable pub walk : Ram → ℕ → ℕ → ℕ → Option ℕ
walk words zero table v =
    let e = words (entry_at table (slot zero v)) in if is_present e then some e else none
walk words (suc l) table v = elim (is_present (words (entry_at table (slot (suc l) v)))) [
  | false ↦ none
  | true ↦ elim (is_huge (words (entry_at table (slot (suc l) v)))) [
    | true ↦ some (words (entry_at table (slot (suc l) v)))
    | false ↦ walk words l (paddr2vaddr (paddr (words (entry_at table (slot (suc l) v))))) v
  ]
]

-- Each table has a level and the unit that it serves.
abbrev pub Names : Type 0
Names = ℕ → Option (ℕ × ℕ)

abbrev pub Serves : Names → ℕ → ℕ → ℕ → Type 0
Serves names table l v = names table ≡ some (l, unit (suc l) v)

-- In the lower half, the entries lead to the tables of their units.
pub record IsTree (words : Ram) (root : ℕ) (names : Names) : Type 0 where
  pub top : names root ≡ some (3, 0)
  pub aligned : (t l p : ℕ) → names t ≡ some (l, p) → t % 4096 ≡ 0
  pub child :
      (t l v : ℕ)
      → Serves names t (suc l) v
      → v < 2 ^ 47
      → is_present (words (entry_at t (slot (suc l) v))) ≡ true
      → (is_huge (words (entry_at t (slot (suc l) v))) ≡ false)
        × Serves names (paddr2vaddr (paddr (words (entry_at t (slot (suc l) v))))) l v

-- The code's indices are the slots.
pub pml4_index-slot : (v : ℕ) → pml4_index v ≡ slot 3 v
unfolding pml4_index
pml4_index-slot v = omega (arith, bit_and_mask 9 (v / 2 ^ 39))

pub pdpt_index-slot : (v : ℕ) → pdpt_index v ≡ slot 2 v
unfolding pdpt_index
pdpt_index-slot v = omega (arith, bit_and_mask 9 (v / 2 ^ 30))

pub pdt_index-slot : (v : ℕ) → pdt_index v ≡ slot 1 v
unfolding pdt_index
pdt_index-slot v = omega (arith, bit_and_mask 9 (v / 2 ^ 21))

pub pt_index-slot : (v : ℕ) → pt_index v ≡ slot 0 v
unfolding pt_index
pt_index-slot v = omega (arith, bit_and_mask 9 (v / 2 ^ 12))

-- Steps of the walk.
pub walk-absent :
    (words : Ram) (l t v : ℕ)
    → is_present (words (entry_at t (slot l v))) ≡ false
    → walk words l t v ≡ none
unfolding walk
walk-absent words zero t v e = rw (walk, e) refl
walk-absent words (suc l) t v e = rw (walk, e) refl

pub walk-leaf :
    (words : Ram) (t v : ℕ)
    → is_present (words (entry_at t (slot 0 v))) ≡ true
    → walk words 0 t v ≡ some (words (entry_at t (slot 0 v)))
unfolding walk
walk-leaf words t v e = rw (walk, e) refl

pub walk-child :
    (words : Ram) (l t v : ℕ)
    → is_present (words (entry_at t (slot (suc l) v))) ≡ true
    → is_huge (words (entry_at t (slot (suc l) v))) ≡ false
    → walk words (suc l) t v
      ≡ walk words l (paddr2vaddr (paddr (words (entry_at t (slot (suc l) v))))) v
unfolding walk
walk-child words l t v e h = rw (walk, e, h) refl

-- The entry for `v` leads to the table `next`.
abbrev pub Leads : Ram → ℕ → ℕ → ℕ → ℕ → Type 0
Leads words l t v next =
    (is_present (words (entry_at t (slot (suc l) v))) ≡ true)
    × (is_huge (words (entry_at t (slot (suc l) v))) ≡ false)
    × (paddr2vaddr (paddr (words (entry_at t (slot (suc l) v)))) ≡ next)

pub walk-Leads :
    (words : Ram) (l t v next : ℕ)
    → Leads words l t v next
    → walk words (suc l) t v ≡ walk words l next v
walk-Leads words l t v next (e, h, n) =
    walk-child words l t v e h ∙ ap (λ (x : ℕ). walk words l x v) n

pub Leads-cong :
    (words words' : Ram) (l t v next : ℕ)
    → words' (entry_at t (slot (suc l) v)) ≡ words (entry_at t (slot (suc l) v))
    → Leads words l t v next
    → Leads words' l t v next
Leads-cong words words' l t v next same (e, h, n) =
    (ap is_present same ∙ e, ap is_huge same ∙ h, ap (λ (x : ℕ). paddr2vaddr (paddr x)) same ∙ n)

module _ (words words' : Ram) (root : ℕ) (names : Names) (tree : IsTree words root names) (v : ℕ)
    (low : v < 2 ^ 47) where
  -- Words that are the same along the walk, until a table from which the walk is the same, give the same walk.
  pub walk_agree :
      ((t l : ℕ)
        → Serves names t l v
        → (words' (entry_at t (slot l v)) ≡ words (entry_at t (slot l v)))
          ⊎ (walk words' l t v ≡ walk words l t v))
      → (l t : ℕ) → Serves names t l v
      → walk words' l t v ≡ walk words l t v
  unfolding walk
  walk_agree step zero t n = elim (step t zero n) [ inl e ↦ rw (walk, e) refl | inr e ↦ e ]
  walk_agree step (suc l) t n = elim (step t (suc l) n) [
    | inr e ↦ e
    | inl e ↦ elim (Bool-cases (is_present (words (entry_at t (slot (suc l) v))))) [
      | inr absent ↦
          walk-absent words' (suc l) t v (ap is_present e ∙ absent)
          ∙ sym (walk-absent words (suc l) t v absent)
      | inl present ↦
          let (small, next) = tree.child t l v n low present in
          walk-child words' l t v (ap is_present e ∙ present) (ap is_huge e ∙ small)
          ∙ ap (λ (x : ℕ). walk words' l (paddr2vaddr (paddr x)) v) e
          ∙ walk_agree step l (paddr2vaddr (paddr (words (entry_at t (slot (suc l) v))))) next
          ∙ sym (walk-child words l t v present small)
    ]
  ]
