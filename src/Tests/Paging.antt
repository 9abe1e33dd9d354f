-- ===== src/Tests/Paging.antt =====
-- The page tables in a small memory.
use ftl.Base.{
  ℕ, ◌+◌, ◌≡◌, ◌≤◌, refl, arith, ◌⊎◌, inl, inr, none, some, [], ◌∷◌, done, Result, ok, err,
}
use ftl.Api.ErrorCode.{ErrorCode, out_of_memory}
use ftl.Arch.Direct.{kernel_base, paddr2vaddr, vaddr2paddr, paddr2vaddr-add}
use ftl.Align.{is_aligned, is_power_of_two, align_up, align_down}
use ftl.Bump
use ftl.Memory.Page
use ftl.Memory.Page.{alloc_from, prepare}
use ftl.Arch.Paging
use ftl.Arch.Paging.{is_present, is_huge, pml4_index, pdpt_index, pdt_index, pt_index}
use ftl.Arch.Tables.{
  Pages, map, new, walk_and_set, ensure_next_table, add_table, alloc_table, set_entry, store_word,
}
use ftl.Arch.Tables.Walk.{Names, walk}
use ftl.Arch.Tables.New.{IsPool, IsNew, only, only-other, fresh_table, fresh-IsTree, new_lem}
use ftl.Arch.Tables.Ensure.{IsSpace}
use ftl.Arch.Tables.Map.{Keeps, Answers, map-Keeps}

abbrev free_pages : Pages
free_pages = record {
  words = λ _. 7;
  pool = record { regions = record { start = 0x100000; next = 0x110000 } ∷ [] };
}

abbrev boot_pdpt : ℕ
boot_pdpt = kernel_base + 0x3000

free_pages-IsPool : IsPool free_pages.pool.regions
free_pages-IsPool = record {
  small = (omega arith, tt);
  separate = λ x. ((λ _ i. absurd i), tt);
  direct = λ x. elim [ inl h ↦ omega arith | inr h ↦ absurd h ];
}

new_lem_example :
    (new boot_pdpt free_pages ≡ done (err out_of_memory, free_pages))
    ⊎ ((a : ℕ) × (s' : Pages) × (new boot_pdpt free_pages
          ≡ done (ok (record { pml4 = paddr2vaddr a; cr3 = a }), s'))
        × IsNew boot_pdpt a s')
new_lem_example =
    new_lem boot_pdpt free_pages free_pages-IsPool (unfold vaddr2paddr in refl)
      (unfold vaddr2paddr in omega arith)

-- An empty table at 0x100000.
abbrev root : ℕ
root = kernel_base + 0x90000

abbrev empty_space : Pages
empty_space = record free_pages { words = fresh_table free_pages.words root 0x3001 }

empty_space-IsSpace : IsSpace root (only root) empty_space
empty_space-IsSpace = record {
  tree = fresh-IsTree free_pages.words root 0x3001 refl;
  small = free_pages-IsPool.small;
  separate = free_pages-IsPool.separate;
  direct = free_pages-IsPool.direct;
  fresh = λ x i.
      let low = free_pages-IsPool.direct x i in
      let far : 0x100000 ≤ x = elim i [ inl h ↦ omega arith | inr h ↦ absurd h ] in
      only-other root (paddr2vaddr x) (λ e. let at = paddr2vaddr-add x low in omega arith);
}

-- One page is mapped, a second call for it is refused, and the walk finds the frame.
mapped_page :
    (elim (map root 0x7000_1234_5000 0x8000 4096 2 empty_space) [
      | done (ok _, s) ↦ walk s.words 3 root 0x7000_1234_5678
      | _ ↦ none
    ])
    ≡ some 0x8007
unfolding map is_aligned walk_and_set ensure_next_table add_table alloc_table set_entry store_word
    walk Page.alloc alloc_from prepare Bump.alloc Paging.new is_power_of_two align_down align_up
    is_present is_huge Paging.paddr paddr2vaddr pml4_index pdpt_index pdt_index pt_index
mapped_page = refl

map-Keeps_example :
    (r : Result (Unit {0}) ErrorCode) × (names' : Names) × (s' : Pages) × (map root 0x7000_1234_5000
        0x8000 4096 2 empty_space
      ≡ done (r, s'))
    × Keeps root empty_space 0x7000_1234_5000 names' s'
    × Answers root empty_space 0x7000_1234_5000 0x8000 2 s' r
map-Keeps_example =
    map-Keeps root 0x7000_1234_5000 0x8000 4096 2 (only root) empty_space empty_space-IsSpace
      (omega arith) (omega arith) (omega arith) (omega arith) (omega arith) (omega arith)
