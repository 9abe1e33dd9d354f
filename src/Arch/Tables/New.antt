-- ===== src/Arch/Tables/New.antt =====
-- `new` of kernel/src/arch/x64/vmspace.rs makes an empty address space that has the kernel's entry.
use ftl.Base.{
  ℕ, zero, suc, ◌+◌, ◌*◌, ◌/◌, ◌%◌, ◌^◌, ◌<◌, ◌≡◌, ◌≢◌, refl, ap, sym, ◌∙◌, arith, ◌⊎◌, inl, inr,
  ltb, leb, ◌==◌, if◌then◌else◌, Bool, true, false, Bool-cases, Option, none, some, map, done,
  Result, ok, err, List,
}
use ftl.Base
use ftl.Api.ErrorCode.{out_of_memory}
use ftl.Bump.{BumpAllocator}
use ftl.Arch.Direct.{paddr2vaddr, vaddr2paddr, paddr2vaddr-add}
use ftl.Arch.Paging
use ftl.Arch.Paging.{is_present, new_fields}
use ftl.Arch.Tables.{Pages, entry_at, store_word, ◌>>?◌, alloc_table, new}
use ftl.Arch.Tables.Walk.{unit, slot, walk, Names, IsTree, walk-absent}
use ftl.Arch.Tables.Grow.{is_present-zero}
use ftl.Arch.Tables.Ensure.{IsSpace, taken, alloc_table_lem}
use ftl.Memory.Page.{Ram, write_zeroes}
use ftl.Memory.Page.Frames.{span, Left, Separate, Small, Carved}

-- Page regions below 2 ^ 47 that are apart.
pub record IsPool (regions : List BumpAllocator) : Type 0 where
  pub small : Small regions
  pub separate : (x : ℕ) → Separate x (map span regions)
  pub direct : (x : ℕ) → Left x regions → x < 2 ^ 47

unfoldable pub only : ℕ → Names
only root t = if t == root then some (3, 0) else none

only-cases : (root t l p : ℕ) → only root t ≡ some (l, p) → (t ≡ root) × (l ≡ 3) × (p ≡ 0)
unfolding only
only-cases root t l p n = elim (Bool-cases (t == root)) [
  | inl e ↦ let n' = rw e at n in (ground arith, cc, cc)
  | inr e ↦ let n' = rw e at n in absurd (cc)
]

abbrev pub fresh_table : Ram → ℕ → ℕ → Ram
fresh_table words root entry = store_word (write_zeroes words root 4096) (entry_at root 256) entry

module _ (words : Ram) (root entry : ℕ) (whole : root % 4096 ≡ 0) where
  abbrev fresh_words : Ram
  fresh_words = fresh_table words root entry

  -- The lower half of the table is empty.
  lower_half : (v : ℕ) → v < 2 ^ 47 → is_present (fresh_words (entry_at root (slot 3 v))) ≡ false
  unfolding store_word
  lower_half v low =
      let other : (entry_at root (slot 3 v) == entry_at root 256) ≡ false = ground arith in
      let within : leb root (entry_at root (slot 3 v)) ≡ true = ground arith in
      let below : ltb (entry_at root (slot 3 v)) (root + 4096) ≡ true = ground arith in
      rw (other, within, below) is_present-zero

  pub fresh-IsTree : IsTree fresh_words root (only root)
  unfolding only
  fresh-IsTree = record {
    top = ground arith;
    aligned = λ t l p n. let (e, _, _) = only-cases root t l p n in rw e whole;
    child = λ t l v n low present.
        let (e, level, _) = only-cases root t (suc l) (unit (suc (suc l)) v) n in
        let l3 : suc l ≡ 3 = level in
        let there : is_present (fresh_words (entry_at root (slot 3 v))) ≡ true =
          ap (λ (k : ℕ). is_present (fresh_words (entry_at root (slot k v)))) (sym l3)
          ∙ ap (λ (x : ℕ). is_present (fresh_words (entry_at x (slot (suc l) v)))) (sym e)
          ∙ present in
        let gone = lower_half v low in absurd (cc);
  }

pub only-other : (root t : ℕ) → t ≢ root → only root t ≡ none
unfolding only
only-other root t ne = let other : (t == root) ≡ false = ground arith in rw other refl

-- The frame of the new table is gone from the pool.
fresh-IsSpace :
    (s : Pages) (a entry : ℕ) (regions : List BumpAllocator)
    → IsPool s.pool.regions
    → ((x : ℕ) → Carved x s.pool.regions regions a 4096)
    → (paddr2vaddr a % 4096 ≡ 0)
    → IsSpace (paddr2vaddr a) (only (paddr2vaddr a)) (record {
      words = fresh_table s.words (paddr2vaddr a) entry;
      pool = record { regions = regions };
    })
fresh-IsSpace s a entry regions pool c whole =
    let at_a = paddr2vaddr-add a (pool.direct a ((c a).taken (omega arith))) in
    record {
      tree = fresh-IsTree s.words (paddr2vaddr a) entry whole;
      small = (c 0).small pool.small;
      separate = λ x. (c x).separate (pool.separate x);
      direct = λ x i. pool.direct x ((c x).rest i);
      fresh = λ x i.
          let at_x = paddr2vaddr-add x (pool.direct x ((c x).rest i)) in
          only-other (paddr2vaddr a) (paddr2vaddr x)
            (λ e. (c x).gone (pool.separate x) i (omega arith));
    }

new-found :
    (boot_pdpt entry : ℕ) (s : Pages) (a : ℕ) (regions : List BumpAllocator)
    → alloc_table s ≡ done (ok a, taken s a regions)
    → Paging.new (vaddr2paddr boot_pdpt) 1 ≡ done entry
    → new boot_pdpt s
      ≡ done (
        ok (record { pml4 = paddr2vaddr a; cr3 = a }),
        record {
          words = fresh_table s.words (paddr2vaddr a) entry;
          pool = record { regions = regions };
        },
      )
unfolding new
new-found boot_pdpt entry s a regions found made = rw (new, found, ◌>>?◌, made, Base.◌>>=◌) refl

new-full :
    (boot_pdpt : ℕ) (s : Pages)
    → alloc_table s ≡ done (err out_of_memory, s)
    → new boot_pdpt s ≡ done (err out_of_memory, s)
unfolding new
new-full boot_pdpt s e = rw (new, e, ◌>>?◌) refl

-- An address space of which nothing is mapped below 2 ^ 47, and whose entry 256 leads to BOOT_PDPT.
abbrev pub IsNew : ℕ → ℕ → Pages → Type 0
IsNew boot_pdpt a s' =
    IsSpace (paddr2vaddr a) (only (paddr2vaddr a)) s'
    × ((v : ℕ) → v < 2 ^ 47 → walk s'.words 3 (paddr2vaddr a) v ≡ none)
    × (Paging.paddr (s'.words (entry_at (paddr2vaddr a) 256)) ≡ vaddr2paddr boot_pdpt)

pub new_lem :
    (boot_pdpt : ℕ) (s : Pages)
    → IsPool s.pool.regions
    → vaddr2paddr boot_pdpt % 4096 ≡ 0
    → vaddr2paddr boot_pdpt < 2 ^ 52
    → (new boot_pdpt s ≡ done (err out_of_memory, s))
      ⊎ ((a : ℕ) × (s' : Pages) × (new boot_pdpt s
            ≡ done (ok (record { pml4 = paddr2vaddr a; cr3 = a }), s'))
          × IsNew boot_pdpt a s')
unfolding store_word
new_lem boot_pdpt s pool whole small = elim (alloc_table_lem s pool.small) [
  | inr e ↦ inl (new-full boot_pdpt s e)
  | inl (a, regions, found, c) ↦
      let (entry, made, frame, _, _) =
        new_fields (vaddr2paddr boot_pdpt) 1 whole small (omega arith) in
      let at_a = paddr2vaddr-add a (pool.direct a ((c a).taken (omega arith))) in
      let al = (c a).aligned in
      let root_whole : paddr2vaddr a % 4096 ≡ 0 = omega arith in
      let here : fresh_table s.words (paddr2vaddr a) entry (entry_at (paddr2vaddr a) 256) ≡ entry =
        ground arith in
      inr (
        a,
        record {
          words = fresh_table s.words (paddr2vaddr a) entry;
          pool = record { regions = regions };
        },
        new-found boot_pdpt entry s a regions found made,
        (
          fresh-IsSpace s a entry regions pool c root_whole,
          λ v low.
              walk-absent (fresh_table s.words (paddr2vaddr a) entry) 3 (paddr2vaddr a) v
                (lower_half s.words (paddr2vaddr a) entry root_whole v low),
          ap Paging.paddr here ∙ frame,
        ),
      )
]
