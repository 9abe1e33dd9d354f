-- ===== src/Arch/Paging.antt =====
-- The page table entries and the table indices of kernel/src/arch/x64/vmspace.rs.
use ftl.Base.{
  ℕ, ◌+◌, ◌*◌, ◌/◌, ◌%◌, ◌^◌, ◌<◌, ◌≡◌, ap, subst, arith, Bool, not, ◌==◌, Exec, done, ◌>>=◌, ◌>>◌,
  assert, bit_and, bit_or,
}
use ftl.Base.Bits.{bit_and_mask, bit_and_clear, bit_and_fields, bit_or_low, bit_and-zero}
use ftl.Align.{is_aligned}
use ftl.Align.Laws.{is_aligned-pow}

abbrev pub pte_v : ℕ
pte_v = 2 ^ 0

abbrev pub pte_w : ℕ
pte_w = 2 ^ 1

abbrev pub pte_u : ℕ
pte_u = 2 ^ 2

abbrev pub pte_huge : ℕ
pte_huge = 2 ^ 7

-- `Pte::new`
unfoldable pub new : ℕ → ℕ → Exec ℕ
new paddr flags = do aligned ← is_aligned paddr 4096; assert aligned; done (bit_or paddr flags)

unfoldable pub is_present : ℕ → Bool
is_present pte = not (bit_and pte pte_v == 0)

unfoldable pub is_huge : ℕ → Bool
is_huge pte = not (bit_and pte pte_huge == 0)

-- `Pte::paddr`
unfoldable pub paddr : ℕ → ℕ
paddr pte = bit_and pte 0x000f_ffff_ffff_f000

unfoldable pub pml4_index : ℕ → ℕ
pml4_index vaddr = bit_and (vaddr / 2 ^ 39) 0x1ff

unfoldable pub pdpt_index : ℕ → ℕ
pdpt_index vaddr = bit_and (vaddr / 2 ^ 30) 0x1ff

unfoldable pub pdt_index : ℕ → ℕ
pdt_index vaddr = bit_and (vaddr / 2 ^ 21) 0x1ff

unfoldable pub pt_index : ℕ → ℕ
pt_index vaddr = bit_and (vaddr / 2 ^ 12) 0x1ff

-- The eighth bit.
bit_seven : (a : ℕ) → bit_and a 128 ≡ a / 128 % 2 * 128
bit_seven a = ground (
  arith,
  bit_and_fields 7 (a / 128) 1 (a % 128) 0,
  bit_and_mask 1 (a / 128),
  bit_and-zero (a % 128),
)

-- An entry made for a page-aligned frame below 2 ^ 52 and flags below 4096 gives the frame back, and is
-- present or huge as its flags say.
pub new_fields :
    (frame flags : ℕ)
    → frame % 4096 ≡ 0
    → frame < 2 ^ 52
    → flags < 4096
    → (pte : ℕ) × (new frame flags ≡ done pte)
      × (paddr pte ≡ frame)
      × (is_present pte ≡ (flags % 2 == 1))
      × (is_huge pte ≡ (flags / 128 % 2 == 1))
unfolding new paddr is_present is_huge
new_fields frame flags aligned small hf =
    let sum : bit_or frame flags ≡ frame + flags =
      let whole : frame / 4096 * 2 ^ 12 ≡ frame = omega arith in
      subst (λ f. bit_or f flags ≡ f + flags) whole (bit_or_low 12 (frame / 4096) flags hf) in
    let pte = frame + flags in
    (
      pte,
      rw (is_aligned-pow frame 12 (omega arith), aligned) (ap done sum),
      omega (arith, bit_and_clear 12 40 pte (omega arith)),
      ground (arith, bit_and_mask 1 pte),
      ground (arith, bit_seven pte),
    )

-- The four indices of a virtual address below 2 ^ 48 are below 512, and with the offset in the page
-- they make up the address; so two pages of that part have different indices.
indices_split :
    (v : ℕ)
    → v < 2 ^ 48
    → (pml4_index v < 512)
      × (pdpt_index v < 512)
      × (pdt_index v < 512)
      × (pt_index v < 512)
      × (pml4_index v * 2 ^ 39
            + pdpt_index v * 2 ^ 30
            + pdt_index v * 2 ^ 21
            + pt_index v * 2 ^ 12
            + v % 4096
          ≡ v)
unfolding pml4_index pdpt_index pdt_index pt_index
indices_split v h =
    let a = bit_and_mask 9 (v / 2 ^ 39) in
    let b = bit_and_mask 9 (v / 2 ^ 30) in
    let c = bit_and_mask 9 (v / 2 ^ 21) in
    let d = bit_and_mask 9 (v / 2 ^ 12) in
    (omega arith, omega arith, omega arith, omega arith, omega arith)
