-- ===== src/Arch/Tables/Ensure.antt =====
-- `ensure_next_table` of kernel/src/arch/x64/vmspace.rs finds or makes the next table, with the page allocator.
use ftl.Base.{
  ℕ, zero, suc, ◌+◌, ◌-◌, ◌*◌, ◌/◌, ◌%◌, ◌^◌, ◌<◌, ◌≤◌, ◌≡◌, ◌≢◌, refl, ap, ap₂, sym, subst, ◌∙◌,
  arith, ◌⊎◌, inl, inr, ltb, leb, ◌==◌, ◌&&◌, if◌then◌else◌, Bool, true, false, Bool-cases, Option,
  none, some, map, done, ok, err, ◌>>=◌, List,
}
use ftl.Base
use ftl.Api.ErrorCode.{out_of_memory}
use ftl.Bump.{BumpAllocator}
use ftl.Arch.Direct.{paddr2vaddr, paddr2vaddr-add}
use ftl.Arch.Paging
use ftl.Arch.Paging.{is_present, is_huge, new_fields}
use ftl.Arch.Tables.{Pages, entry_at, store_word, alloc_table, add_table, ensure_next_table, ◌>>?◌}
use ftl.Arch.Tables.Walk.{unit, slot, walk, Names, Serves, IsTree, Leads, walk-absent}
use ftl.Arch.Tables.Grow.{
  IsAdded, joined, joined-old, joined-new, joined-none, walk-grown, grown-present, grown-IsTree,
  grown-here,
}
use ftl.Memory.Page.{Ram, zeroed, write_zeroes, prepare}
use ftl.Memory.Page.Frames.{span, Left, Separate, Small, Carved, alloc_from-Outcome}
use ftl.Memory.Page.Runs.{Request, alloc-whole}

-- The tables of the space are a tree, and no frame that is left in the page allocator is one of them.
pub record IsSpace (root : ℕ) (names : Names) (s : Pages) : Type 0 where
  pub tree : IsTree s.words root names
  pub small : Small s.pool.regions
  pub separate : (x : ℕ) → Separate x (map span s.pool.regions)
  pub direct : (x : ℕ) → Left x s.pool.regions → x < 2 ^ 47
  pub fresh : (x : ℕ) → Left x s.pool.regions → names (paddr2vaddr x) ≡ none

-- `x` is in no table.
abbrev pub Elsewhere : Names → ℕ → Type 0
Elsewhere names x = (t l p : ℕ) → names t ≡ some (l, p) → (x < t) ⊎ (t + 4096 ≤ x)

-- Tables may have been added, of memory that was free; no translation has changed, and no word outside the tables.
pub record Grows (root : ℕ) (names : Names) (s : Pages) (names' : Names) (s' : Pages) : Type 0 where
  pub space : IsSpace root names' s'
  pub kept : (t l p : ℕ) → names t ≡ some (l, p) → names' t ≡ some (l, p)
  pub same :
      (v l t : ℕ) → v < 2 ^ 47 → Serves names t l v → walk s'.words l t v ≡ walk s.words l t v
  pub stays :
      (v l t : ℕ)
      → Serves names t (suc l) v
      → is_present (s.words (entry_at t (slot (suc l) v))) ≡ true
      → s'.words (entry_at t (slot (suc l) v)) ≡ s.words (entry_at t (slot (suc l) v))
  pub outside : (x : ℕ) → Elsewhere names' x → s'.words x ≡ s.words x

pub Grows-trans :
    {root : ℕ} {names names' names'' : Names} {s s' s'' : Pages}
    → Grows root names s names' s'
    → Grows root names' s' names'' s''
    → Grows root names s names'' s''
Grows-trans g h = record {
  space = h.space;
  kept = λ t l p n. h.kept t l p (g.kept t l p n);
  same = λ v l t low n. h.same v l t low (g.kept t l (unit (suc l) v) n) ∙ g.same v l t low n;
  stays = λ v l t n present.
      let e = g.stays v l t n present in
      h.stays v l t (g.kept t (suc l) (unit (suc (suc l)) v) n) (ap is_present e ∙ present) ∙ e;
  outside = λ x e. h.outside x e ∙ g.outside x (λ t l p n. e t l p (h.kept t l p n));
}

pub Grows-refl :
    {root : ℕ} {names : Names} {s : Pages} → IsSpace root names s → Grows root names s names s
Grows-refl space = record {
  space = space;
  kept = λ t l p n. n;
  same = λ v l t low n. refl;
  stays = λ v l t n present. refl;
  outside = λ x e. refl;
}

abbrev pub taken : Pages → ℕ → List BumpAllocator → Pages
taken s a regions = record {
  words = write_zeroes s.words (paddr2vaddr a) 4096;
  pool = record { regions = regions };
}

pub alloc_table_lem :
    (s : Pages)
    → Small s.pool.regions
    → ((a : ℕ) × (regions : List BumpAllocator) × (alloc_table s ≡ done (ok a, taken s a regions))
        × ((x : ℕ) → Carved x s.pool.regions regions a 4096))
      ⊎ (alloc_table s ≡ done (err out_of_memory, s))
unfolding alloc_table prepare
alloc_table_lem s small =
    let r : Request = record { len = 4096; page_type = zeroed } in
    let whole = alloc-whole s.pool s.words r (omega arith, omega arith) in
    elim (alloc_from-Outcome 4096 s.pool.regions small) [
      | inl (a, regions, e, c) ↦ inl (a, regions, rw (alloc_table, whole, e, Base.◌>>=◌) refl, c)
      | inr e ↦ inr (rw (alloc_table, whole, e, Base.◌>>=◌) refl)
    ]

-- What `ensure_next_table` may do for the unit of `v` from a table of level `l + 1`.
abbrev pub Ensured : ℕ → Names → Pages → ℕ → ℕ → ℕ → Type 0
Ensured root names s t l v =
    (names' : Names) × (s' : Pages) × Grows root names s names' s'
    × (((next : ℕ) × (ensure_next_table t (slot (suc l) v) s ≡ done (ok next, s'))
          × Serves names' next l v
          × Leads s'.words l t v next)
        ⊎ ((ensure_next_table t (slot (suc l) v) s ≡ done (err out_of_memory, s'))
            × (walk s.words (suc l) t v ≡ none)))

ensure_next_table-absent :
    (t i : ℕ) (s : Pages)
    → i < 512
    → is_present (s.words (entry_at t i)) ≡ false
    → ensure_next_table t i s ≡ add_table (entry_at t i) s
unfolding ensure_next_table
ensure_next_table-absent t i s h e =
    let inside : ltb i 512 ≡ true = ground arith in rw (ensure_next_table, inside, e) refl

ensure_next_table-present :
    (t i : ℕ) (s : Pages)
    → i < 512
    → is_present (s.words (entry_at t i)) ≡ true
    → is_huge (s.words (entry_at t i)) ≡ false
    → ensure_next_table t i s ≡ done (ok (paddr2vaddr (Paging.paddr (s.words (entry_at t i)))), s)
unfolding ensure_next_table
ensure_next_table-present t i s h e f =
    let inside : ltb i 512 ≡ true = ground arith in rw (ensure_next_table, inside, e, f) refl

add_table-full :
    (at : ℕ) (s : Pages)
    → alloc_table s ≡ done (err out_of_memory, s)
    → add_table at s ≡ done (err out_of_memory, s)
unfolding add_table
add_table-full at s e = rw (add_table, e, ◌>>?◌) refl

module _ (root : ℕ) (names : Names) (s : Pages) (space : IsSpace root names s) (t l v : ℕ)
    (served : Serves names t (suc l) v) (low : v < 2 ^ 47) where
  module _ (absent : is_present (s.words (entry_at t (slot (suc l) v))) ≡ false) (a : ℕ)
      (regions : List BumpAllocator) (found : alloc_table s ≡ done (ok a, taken s a regions))
      (c : (x : ℕ) → Carved x s.pool.regions regions a 4096) where
    abbrev with_entry : ℕ → Pages
    with_entry pte = record {
      words =
          store_word (write_zeroes s.words (paddr2vaddr a) 4096) (entry_at t (slot (suc l) v)) pte;
      pool = record { regions = regions };
    }

    added-Grows :
        (pte : ℕ)
        → (added : IsAdded s.words names t l v (paddr2vaddr a) a pte)
        → Grows root names s
            (joined s.words root names space.tree t l v (paddr2vaddr a) a pte added)
            (with_entry pte)
    unfolding store_word
    added-Grows pte added =
        let table = paddr2vaddr a in
        let tree = space.tree in
        let at_a = paddr2vaddr-add a (space.direct a ((c a).taken (omega arith))) in
        record {
          space = record {
            tree = grown-IsTree s.words root names tree t l v table a pte added;
            small = (c 0).small space.small;
            separate = λ x. (c x).separate (space.separate x);
            direct = λ x i. space.direct x ((c x).rest i);
            fresh = λ x i.
                let old = (c x).rest i in
                let at_x = paddr2vaddr-add x (space.direct x old) in
                joined-none s.words root names tree t l v table a pte added (paddr2vaddr x)
                  (space.fresh x old) (λ e. (c x).gone (space.separate x) i (omega arith));
          };
          kept = λ t' l' p' n. joined-old s.words root names tree t l v table a pte added t' n;
          same = λ v' l' t' low n.
              walk-grown s.words root names tree t l v table a pte added v' low l' t' n;
          stays = λ v' l' t' n present.
              grown-present s.words root names tree t l v table a pte added t' l' v' n present;
          outside = λ x e.
              let in_t =
                e t (suc l) (unit (suc (suc l)) v)
                  (joined-old s.words root names tree t l v table a pte added t added.served) in
              let in_table =
                e table l (unit (suc l) v)
                  (joined-new s.words root names tree t l v table a pte added) in
              ground arith;
        }

    added_table :
        (pte : ℕ)
        → Paging.new a 7 ≡ done pte
        → IsAdded s.words names t l v (paddr2vaddr a) a pte
        → Ensured root names s t l v
    unfolding add_table
    added_table pte made added =
        let table = paddr2vaddr a in
        let words : Ram = (with_entry pte).words in
        let names' : Names = joined s.words root names space.tree t l v table a pte added in
        let here = grown-here s.words root names space.tree t l v table a pte added v refl in
        (
          names',
          with_entry pte,
          added-Grows pte added,
          inl (
            table,
            ensure_next_table-absent t (slot (suc l) v) s (omega arith) absent
                ∙ rw (add_table, found, ◌>>?◌, made, Base.◌>>=◌) refl,
            joined-new s.words root names space.tree t l v table a pte added,
            (
              ap is_present here ∙ added.present,
              ap is_huge here ∙ added.small,
              ap paddr2vaddr (ap Paging.paddr here ∙ added.entry),
            ),
          ),
        )

  pub ensure_lem : Ensured root names s t l v
  ensure_lem = elim (Bool-cases (is_present (s.words (entry_at t (slot (suc l) v))))) [
    | inl present ↦
        let (small, next) = space.tree.child t l v served low present in
        (
          names,
          s,
          Grows-refl space,
          inl (
            paddr2vaddr (Paging.paddr (s.words (entry_at t (slot (suc l) v)))),
            ensure_next_table-present t (slot (suc l) v) s (omega arith) present small,
            next,
            (present, small, refl),
          ),
        )
    | inr absent ↦ elim (alloc_table_lem s space.small) [
      | inr e ↦ (
        names,
        s,
        Grows-refl space,
        inr (
          ensure_next_table-absent t (slot (suc l) v) s (omega arith) absent
              ∙ add_table-full (entry_at t (slot (suc l) v)) s e,
          walk-absent s.words (suc l) t v absent,
        ),
      )
      | inl (a, regions, found, c) ↦
          let small = space.direct a ((c a).taken (omega arith)) in
          let at_a = paddr2vaddr-add a small in
          let whole = (c a).aligned in
          let (pte, made, frame, present, huge) =
            new_fields a 7 whole (omega arith) (omega arith) in
          added_table absent a regions found c pte made (record {
            served = served;
            low = low;
            absent = absent;
            fresh = space.fresh a ((c a).taken (omega arith));
            whole = omega arith;
            place = refl;
            entry = frame;
            present = present;
            small = huge;
          })
    ]
  ]
