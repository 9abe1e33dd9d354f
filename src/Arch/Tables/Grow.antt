-- ===== src/Arch/Tables/Grow.antt =====
-- A table that `ensure_next_table` of kernel/src/arch/x64/vmspace.rs adds joins the tree, and no translation changes.
use ftl.Base.{
  ℕ, suc, ◌%◌, ◌^◌, ◌<◌, ◌≡◌, ◌≢◌, refl, ap, ap₂, sym, subst, ◌∙◌, arith, ◌⊎◌, inl, inr, ◌==◌,
  if◌then◌else◌, true, false, Bool-cases, none, some,
}
use ftl.Memory.Page.{Ram, write_zeroes}
use ftl.Arch.Direct.{paddr2vaddr}
use ftl.Arch.Paging.{is_present, is_huge, paddr}
use ftl.Arch.Tables.{entry_at, store_word}
use ftl.Arch.Tables.Walk.{
  unit, slot, walk, Names, Serves, IsTree, walk-absent, walk-child, walk_agree,
}

-- The names with one table more.
unfoldable pub with_table : Names → ℕ → ℕ → ℕ → Names
with_table names table l p t = if t == table then some (l, p) else names t

pub Serves-same :
    (names : Names) (t l v l' v' : ℕ)
    → Serves names t l v
    → Serves names t l' v'
    → (l ≡ l') × (unit (suc l) v ≡ unit (suc l') v')
Serves-same names t l v l' v' a b = let e = sym a ∙ b in (cc, cc)

names_differ : (names : Names) (t t' : ℕ) {k : ℕ × ℕ} → names t ≡ none → names t' ≡ some k → t' ≢ t
names_differ names t t' fresh named e = let f = sym fresh ∙ ap names (sym e) ∙ named in cc

-- Two places in tables are the same only as the same entry of one table.
pub entry_at-injective :
    {t t' : ℕ} (i j : ℕ)
    → t % 4096 ≡ 0
    → t' % 4096 ≡ 0
    → i < 512
    → j < 512
    → entry_at t i ≡ entry_at t' j
    → (t ≡ t') × (i ≡ j)
entry_at-injective i j a b p q e = (omega arith, omega arith)

pub is_present-zero : is_present 0 ≡ false
unfolding is_present
is_present-zero = refl

-- A free frame becomes the table behind an entry that is not present.
pub record IsAdded (words : Ram) (names : Names) (t l v table frame pte : ℕ) : Type 0 where
  pub served : Serves names t (suc l) v
  pub low : v < 2 ^ 47
  pub absent : is_present (words (entry_at t (slot (suc l) v))) ≡ false
  pub fresh : names table ≡ none
  pub whole : table % 4096 ≡ 0
  pub place : table ≡ paddr2vaddr frame
  pub entry : paddr pte ≡ frame
  pub present : is_present pte ≡ true
  pub small : is_huge pte ≡ false

module _ (words : Ram) (root : ℕ) (names : Names) (tree : IsTree words root names)
    (t l v table frame pte : ℕ) (added : IsAdded words names t l v table frame pte) where
  abbrev pub grown : Ram
  grown = store_word (write_zeroes words table 4096) (entry_at t (slot (suc l) v)) pte

  grown-at : grown (entry_at t (slot (suc l) v)) ≡ pte
  unfolding store_word
  grown-at = ground arith

  apart : (t' l' p' : ℕ) → names t' ≡ some (l', p') → (t' ≢ table) × (t' % 4096 ≡ 0)
  apart t' l' p' n = (names_differ names table t' added.fresh n, tree.aligned t' l' p' n)

  grown-zero : (i : ℕ) → i < 512 → grown (entry_at table i) ≡ 0
  unfolding store_word
  grown-zero i h =
      let (ne, al) = apart t (suc l) (unit (suc (suc l)) v) added.served in
      let whole = added.whole in
      let other : (entry_at table i == entry_at t (slot (suc l) v)) ≡ false = ground arith in
      rw other (ground arith)

  grown-old :
      (t' l' p' i : ℕ)
      → names t' ≡ some (l', p')
      → i < 512
      → entry_at t' i ≢ entry_at t (slot (suc l) v)
      → grown (entry_at t' i) ≡ words (entry_at t' i)
  unfolding store_word
  grown-old t' l' p' i n h ne =
      let (differs, al) = apart t' l' p' n in
      let whole = added.whole in
      let other : (entry_at t' i == entry_at t (slot (suc l) v)) ≡ false = ground arith in
      rw other (ground arith)

  -- An entry that is present stays.
  pub grown-present :
      (t' l' v' : ℕ)
      → Serves names t' (suc l') v'
      → is_present (words (entry_at t' (slot (suc l') v'))) ≡ true
      → grown (entry_at t' (slot (suc l') v')) ≡ words (entry_at t' (slot (suc l') v'))
  grown-present t' l' v' n present =
      grown-old t' (suc l') (unit (suc (suc l')) v') (slot (suc l') v') n (omega arith)
        (λ e. let absent = ap (λ (x : ℕ). is_present (words x)) e ∙ added.absent in cc)

  abbrev pub joined : Names
  joined = with_table names table l (unit (suc l) v)

  pub joined-old : (t' : ℕ) {k : ℕ × ℕ} → names t' ≡ some k → joined t' ≡ some k
  unfolding with_table
  joined-old t' n =
      let ne = names_differ names table t' added.fresh n in
      let other : (t' == table) ≡ false = ground arith in rw other n

  pub joined-none : (t' : ℕ) → names t' ≡ none → t' ≢ table → joined t' ≡ none
  unfolding with_table
  joined-none t' n ne = let other : (t' == table) ≡ false = ground arith in rw other n

  pub joined-new : joined table ≡ some (l, unit (suc l) v)
  unfolding with_table
  joined-new = ground arith

  -- Each name is the new one or an old one.
  joined-cases :
      (t' l' p' : ℕ)
      → joined t' ≡ some (l', p')
      → ((t' ≡ table) × (l' ≡ l) × (p' ≡ unit (suc l) v)) ⊎ (names t' ≡ some (l', p'))
  unfolding with_table
  joined-cases t' l' p' n = elim (Bool-cases (t' == table)) [
    | inl e ↦ let n' = rw e at n in inl (ground arith, cc, cc)
    | inr e ↦ inr (rw e at n)
  ]

  -- The new entry leads to the empty table.
  pub grown-here :
      (v' : ℕ) → slot (suc l) v' ≡ slot (suc l) v → grown (entry_at t (slot (suc l) v')) ≡ pte
  grown-here v' e = ap (λ (i : ℕ). grown (entry_at t i)) e ∙ grown-at

  walk-new : (v' : ℕ) → slot (suc l) v' ≡ slot (suc l) v → walk grown (suc l) t v' ≡ none
  walk-new v' e =
      let h = grown-here v' e in
      walk-child grown l t v' (ap is_present h ∙ added.present) (ap is_huge h ∙ added.small)
      ∙ ap (λ (x : ℕ). walk grown l (paddr2vaddr x) v') (ap paddr h ∙ added.entry)
      ∙ ap (λ (x : ℕ). walk grown l x v') (sym added.place)
      ∙ walk-absent grown l table v'
          (ap is_present (grown-zero (slot l v') (omega arith)) ∙ is_present-zero)

  -- At the place of the new entry only its own unit is looked up.
  same_entry :
      (t' l' v' : ℕ)
      → Serves names t' l' v'
      → entry_at t' (slot l' v') ≡ entry_at t (slot (suc l) v)
      → (t' ≡ t)
        × (l' ≡ suc l)
        × (slot l' v' ≡ slot (suc l) v)
        × (unit (suc l') v' ≡ unit (suc (suc l)) v)
  same_entry t' l' v' n e =
      let (same, index) =
        entry_at-injective (slot l' v') (slot (suc l) v) (tree.aligned t' l' _ n)
          (tree.aligned t (suc l) _ added.served) (omega arith) (omega arith) e in
      let n' : Serves names t l' v' = subst (λ (x : ℕ). Serves names x l' v') same n in
      let (level, place) = Serves-same names t l' v' (suc l) v n' added.served in
      (same, level, index, place)

  pub walk-grown :
      (v' : ℕ)
      → v' < 2 ^ 47
      → (l' t' : ℕ) → Serves names t' l' v'
      → walk grown l' t' v' ≡ walk words l' t' v'
  walk-grown v' low = walk_agree words grown root names tree v' low λ t' l' n.
      elim (Bool-cases (entry_at t' (slot l' v') == entry_at t (slot (suc l) v))) [
        | inr other ↦
            inl (grown-old t' l' (unit (suc l') v') (slot l' v') n (omega arith) (ground arith))
        | inl here ↦
            let at : entry_at t' (slot l' v') ≡ entry_at t (slot (suc l) v) = ground arith in
            let (same, level, index, place) = same_entry t' l' v' n at in
            let before =
              walk-absent words l' t' v' (ap (λ (x : ℕ). is_present (words x)) at ∙ added.absent) in
            let index' = ap (λ (k : ℕ). slot k v') (sym level) ∙ index in
            inr (
              ap (λ (k : ℕ). walk grown k t' v') level
              ∙ ap (λ (x : ℕ). walk grown (suc l) x v') same
              ∙ walk-new v' index'
              ∙ sym before)
      ]

  grown_child :
      (t' l' v' : ℕ)
      → Serves joined t' (suc l') v'
      → v' < 2 ^ 47
      → is_present (grown (entry_at t' (slot (suc l') v'))) ≡ true
      → (is_huge (grown (entry_at t' (slot (suc l') v'))) ≡ false)
        × Serves joined (paddr2vaddr (paddr (grown (entry_at t' (slot (suc l') v'))))) l' v'
  grown_child t' l' v' n low present =
      let i = slot (suc l') v' in
      let next = λ (x : ℕ). joined (paddr2vaddr (paddr x)) in
      elim (joined-cases t' (suc l') (unit (suc (suc l')) v') n) [
        | inl (e, _, _) ↦
            let empty =
              ap (λ (x : ℕ). is_present (grown (entry_at x i))) e
              ∙ ap is_present (grown-zero i (omega arith))
              ∙ is_present-zero in
            let clash = sym present ∙ empty in cc
        | inr old ↦ elim (Bool-cases (entry_at t' i == entry_at t (slot (suc l) v))) [
          | inl here ↦
              let at : entry_at t' i ≡ entry_at t (slot (suc l) v) = ground arith in
              let (same, level, index, place) = same_entry t' (suc l') v' old at in
              let e : grown (entry_at t' i) ≡ pte = ap grown at ∙ grown-at in
              let level' : l ≡ l' = omega arith in
              let place' : unit (suc l) v ≡ unit (suc l') v' = omega arith in
              (
                ap is_huge e ∙ added.small,
                ap next e
                    ∙ ap (λ (x : ℕ). joined (paddr2vaddr x)) added.entry
                    ∙ ap joined (sym added.place)
                    ∙ joined-new
                    ∙ ap₂ (λ (a b : ℕ). some (a, b)) level' place',
              )
          | inr other ↦
              let e =
                grown-old t' (suc l') (unit (suc (suc l')) v') i old (omega arith) (ground arith) in
              let (small, child) = tree.child t' l' v' old low (ap is_present (sym e) ∙ present) in
              (ap is_huge e ∙ small, ap next e ∙ joined-old _ child)
        ]
      ]

  pub grown-IsTree : IsTree grown root joined
  grown-IsTree = record {
    top = joined-old root tree.top;
    aligned = λ t' l' p' n. elim (joined-cases t' l' p' n) [
      | inl (e, _, _) ↦ rw e added.whole
      | inr old ↦ tree.aligned t' l' p' old
    ];
    child = grown_child;
  }
