-- ===== src/Arch/Tables/Leaf.antt =====
-- `map` of kernel/src/arch/x64/vmspace.rs at the last table: the leaf that it writes, and what stays.
use ftl.Base.{
  ℕ, zero, suc, ◌+◌, ◌-◌, ◌*◌, ◌/◌, ◌%◌, ◌^◌, ◌<◌, ◌≤◌, ◌≡◌, ◌≢◌, refl, ap, ap₂, sym, subst, ◌∙◌,
  arith, ◌⊎◌, inl, inr, ltb, leb, ◌==◌, ==_iff, ◌&&◌, if◌then◌else◌, Bool, true, false, Bool-cases,
  Option, none, some, done, Result, ok, err, ◌>>=◌, bit_or,
}
use ftl.Base
use ftl.Base.Bits.{bit_or_step, zero-bit_or}
use ftl.Api.ErrorCode.{already_exists}
use ftl.Arch.Direct.{paddr2vaddr}
use ftl.Arch.Paging
use ftl.Arch.Paging.{pte_v, pte_u, is_present, is_huge, new_fields}
use ftl.Arch.Tables.{Pages, entry_at, store_word, set_entry}
use ftl.Arch.Tables.Walk.{unit, slot, walk, Names, Serves, walk_agree}
use ftl.Arch.Tables.Grow.{Serves-same, entry_at-injective}
use ftl.Arch.Tables.Ensure.{IsSpace, Elsewhere}

-- The flags of a leaf.
abbrev pub leaf_flags : ℕ → ℕ
leaf_flags attrs = bit_or (bit_or pte_v pte_u) attrs

pub leaf_flags_lem :
    (attrs : ℕ) → attrs < 4096 → (leaf_flags attrs < 4096) × (leaf_flags attrs % 2 ≡ 1)
leaf_flags_lem attrs h =
    let a = bit_or_step 5 attrs in
    let b = bit_or_step 2 (attrs / 2) in
    let c = bit_or_step 1 (attrs / 2 / 2) in
    let d = zero-bit_or (attrs / 2 / 2 / 2) in (omega arith, omega arith)

-- A leaf is written where nothing was mapped.
pub record IsWritten (root : ℕ) (names : Names) (s : Pages) (v entry : ℕ) (s' : Pages)
    : Type 0 where
  pub space : IsSpace root names s'
  pub others :
      (v' l t : ℕ)
      → v' < 2 ^ 47
      → v' / 4096 ≢ v / 4096
      → Serves names t l v'
      → walk s'.words l t v' ≡ walk s.words l t v'
  pub stays :
      (v' l t : ℕ)
      → Serves names t (suc l) v'
      → s'.words (entry_at t (slot (suc l) v')) ≡ s.words (entry_at t (slot (suc l) v'))
  pub outside : (x : ℕ) → Elsewhere names x → s'.words x ≡ s.words x

module _ (root : ℕ) (names : Names) (s : Pages) (space : IsSpace root names s) (pt v : ℕ)
    (served : Serves names pt 0 v) where
  abbrev pub with_leaf : ℕ → Pages
  with_leaf entry = record s { words = store_word s.words (entry_at pt (slot 0 v)) entry }

  with_leaf-other :
      (entry t l p i : ℕ)
      → names t ≡ some (l, p)
      → i < 512
      → ((t ≡ pt) → i ≢ slot 0 v)
      → (with_leaf entry).words (entry_at t i) ≡ s.words (entry_at t i)
  unfolding store_word
  with_leaf-other entry t l p i n h ne =
      let other : (entry_at t i == entry_at pt (slot 0 v)) ≡ false =
        elim (Bool-cases (entry_at t i == entry_at pt (slot 0 v))) [
          | inr no_match ↦ no_match
          | inl e ↦
              let (same, index) =
                entry_at-injective i (slot 0 v) (space.tree.aligned t l p n)
                  (space.tree.aligned pt 0 _ served) h (omega arith) (ground arith) in
              absurd (ne same index)
        ] in
      rw other refl

  -- An upper table is not the one of the leaf.
  upper :
      (entry t l v' : ℕ)
      → Serves names t (suc l) v'
      → (with_leaf entry).words (entry_at t (slot (suc l) v'))
        ≡ s.words (entry_at t (slot (suc l) v'))
  upper entry t l v' n =
      with_leaf-other entry t (suc l) (unit (suc (suc l)) v') (slot (suc l) v') n (omega arith)
        λ e i.
          let n' : Serves names pt (suc l) v' = subst (λ (x : ℕ). Serves names x (suc l) v') e n in
          let (level, _) = Serves-same names pt (suc l) v' 0 v n' served in omega arith

  other_page :
      (entry v' t l : ℕ)
      → v' / 4096 ≢ v / 4096
      → Serves names t l v'
      → (with_leaf entry).words (entry_at t (slot l v')) ≡ s.words (entry_at t (slot l v'))
  other_page entry v' t zero ne n =
      with_leaf-other entry t 0 (unit 1 v') (slot 0 v') n (omega arith) λ e i.
        let n' : Serves names pt 0 v' = subst (λ (x : ℕ). Serves names x 0 v') e n in
        let (_, place) = Serves-same names pt 0 v' 0 v n' served in ne (omega arith)
  other_page entry v' t (suc l) ne n = upper entry t l v' n

  pub with_leaf-here : (entry : ℕ) → (with_leaf entry).words (entry_at pt (slot 0 v)) ≡ entry
  unfolding store_word
  with_leaf-here entry = ground arith

  pub with_leaf-IsWritten : (entry : ℕ) → IsWritten root names s v entry (with_leaf entry)
  unfolding store_word
  with_leaf-IsWritten entry = record {
    space = record {
      tree = record {
        top = space.tree.top;
        aligned = space.tree.aligned;
        child = λ t l v' n low present.
            let e = upper entry t l v' n in
            let (small, next) = space.tree.child t l v' n low (ap is_present (sym e) ∙ present) in
            (ap is_huge e ∙ small, ap (λ (x : ℕ). names (paddr2vaddr (Paging.paddr x))) e ∙ next);
      };
      small = space.small;
      separate = space.separate;
      direct = space.direct;
      fresh = space.fresh;
    };
    others = λ v' l t low ne n.
        walk_agree s.words (with_leaf entry).words root names space.tree v' low
          (λ t' l' n'. inl (other_page entry v' t' l' ne n')) l t n;
    stays = λ v' l t n. upper entry t l v' n;
    outside = λ x e. let in_pt = e pt 0 (unit 1 v) served in ground arith;
  }

pub set_entry-absent :
    (pt i paddr attrs entry : ℕ) (s : Pages)
    → i < 512
    → is_present (s.words (entry_at pt i)) ≡ false
    → Paging.new paddr (leaf_flags attrs) ≡ done entry
    → set_entry pt i paddr attrs s
      ≡ done (ok tt, record s { words = store_word s.words (entry_at pt i) entry })
unfolding set_entry
set_entry-absent pt i paddr attrs entry s h e made =
    let inside : ltb i 512 ≡ true = ground arith in rw (set_entry, inside, e, made, Base.◌>>=◌) refl

pub set_entry-present :
    (pt i paddr attrs : ℕ) (s : Pages)
    → i < 512
    → is_present (s.words (entry_at pt i)) ≡ true
    → set_entry pt i paddr attrs s ≡ done (err already_exists, s)
unfolding set_entry
set_entry-present pt i paddr attrs s h e =
    let inside : ltb i 512 ≡ true = ground arith in rw (set_entry, inside, e) refl
