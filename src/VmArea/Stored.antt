-- ===== src/VmArea/Stored.antt =====
-- What a copy into a page does to the bytes of an area of kernel/src/vmarea.rs.
use ftl.Base.{
  ℕ, ◌+◌, ◌-◌, ◌/◌, ◌%◌, ◌≤◌, ◌<◌, ◌≡◌, ◌≢◌, refl, sym, ap, ◌∙◌, ◌⊎◌, inl, inr, arith, Option, none,
  some, List, length, get_elem?, false, ltb, Bool-cases,
}
use native.Mathlib.Decide.{ℕ_discrete}
use ftl.Base.Ram.{store, store_outside, store_inside}
use ftl.Arch.Direct.{min_page_size, paddr2vaddr, paddr2vaddr-add}
use ftl.VmArea.{State}
use ftl.VmArea.Fill.{byte_of, content, IsValid}

-- The state after `bytes` are copied to the page `p`.
abbrev pub stored : State → ℕ → ℕ → List ℕ → State
stored s offset p bytes = record s {
  ram = store s.ram (paddr2vaddr p + offset % min_page_size) bytes;
}

pub stored-IsValid :
    (s : State) (offset p : ℕ) (bytes : List ℕ) → IsValid s → IsValid (stored s offset p bytes)
stored-IsValid s offset p bytes v = record {
  aligned = v.aligned;
  mapped = v.mapped;
  own = v.own;
  distinct = v.distinct;
  small = v.small;
  separate = v.separate;
  direct = v.direct;
}

outside_run :
    (x offset n : ℕ)
    → offset % min_page_size + n ≤ min_page_size
    → x / min_page_size ≢ offset / min_page_size
    → (x < offset) ⊎ (offset + n ≤ x)
outside_run x offset n fits other = elim (Bool-cases (ltb x offset)) [
  | inl before ↦ inl (ground arith)
  | inr from ↦ elim (Bool-cases (ltb x (offset + n))) [
    | inl within ↦ absurd (other (ground arith))
    | inr after ↦ inr (ground arith)
  ]
]

in_page :
    (b x offset : ℕ)
    → x / min_page_size ≡ offset / min_page_size
    → ltb x offset ≡ false
    → b + x % min_page_size ≡ b + offset % min_page_size + (x - offset)
in_page b x offset same from = ground arith

-- A page of the area is where its bytes are read.
pub page_byte :
    (s : State) (i p x : ℕ)
    → get_elem? s.pages i ≡ some (some p)
    → x / min_page_size ≡ i
    → content s x ≡ s.ram (paddr2vaddr p + x % min_page_size)
page_byte s i p x here e =
    ap (λ (page : Option (Option ℕ)). byte_of s.ram page x) (ap (get_elem? s.pages) e ∙ here)

module _ (s : State) (v : IsValid s) (offset p : ℕ)
    (here : get_elem? s.pages (offset / min_page_size) ≡ some (some p)) where
  -- A run of bytes in the page `p` does not touch other pages.
  other_page :
      (bytes : List ℕ) (x : ℕ) (page : Option (Option ℕ))
      → offset % min_page_size + length bytes ≤ min_page_size
      → x / min_page_size ≢ offset / min_page_size
      → get_elem? s.pages (x / min_page_size) ≡ page
      → byte_of (stored s offset p bytes).ram page x ≡ byte_of s.ram page x
  other_page bytes x none fits other e = refl
  other_page bytes x (some none) fits other e = refl
  other_page bytes x (some (some q)) fits other e =
      let differ : q ≢ p = λ (same : q ≡ p). other (
        v.distinct (x / min_page_size) (offset / min_page_size) p
          (e ∙ ap (λ (a : ℕ). some (some a)) same) here) in
      let p_small = v.mapped (offset / min_page_size) p here in
      let q_small = v.mapped (x / min_page_size) q e in
      let at_p = paddr2vaddr-add p (omega arith) in
      let at_q = paddr2vaddr-add q (omega arith) in
      let p_aligned = v.aligned (offset / min_page_size) p here in
      let q_aligned = v.aligned (x / min_page_size) q e in
      store_outside s.ram (paddr2vaddr p + offset % min_page_size) bytes
        (paddr2vaddr q + x % min_page_size)
        (elim (Bool-cases (ltb q p)) [
          | inl lower ↦ inl (ground (arith, at_p, at_q))
          | inr higher ↦ inr (ground (arith, at_p, at_q))
        ])

  -- Bytes that stay within the page of `offset` are written at `offset` of the area.
  pub stored-content :
      (bytes : List ℕ) (x : ℕ)
      → offset % min_page_size + length bytes ≤ min_page_size
      → content (stored s offset p bytes) x ≡ store (content s) offset bytes x
  stored-content bytes x fits =
      let base = paddr2vaddr p + offset % min_page_size in
      let i = x - offset in
      elim (ℕ_discrete (x / min_page_size) (offset / min_page_size)) [
        | no other ↦
            other_page bytes x (get_elem? s.pages (x / min_page_size)) fits other refl
            ∙ sym (
                store_outside (content s) offset bytes x
                  (outside_run x offset (length bytes) fits other))
        | yes same ↦
            page_byte (stored s offset p bytes) (offset / min_page_size) p x here same
            ∙ elim (Bool-cases (ltb x offset)) [
              | inl before ↦
                  store_outside s.ram base bytes (paddr2vaddr p + x % min_page_size)
                    (inl (ground arith))
                  ∙ sym (page_byte s (offset / min_page_size) p x here same)
                  ∙ sym (store_outside (content s) offset bytes x (inl (ground arith)))
              | inr from ↦ elim (Bool-cases (ltb i (length bytes))) [
                | inl within ↦
                    ap (store s.ram base bytes) (in_page (paddr2vaddr p) x offset same from)
                    ∙ store_inside s.ram (content s) base offset bytes i (ground arith)
                    ∙ ap (store (content s) offset bytes) (ground arith)
                | inr after ↦
                    store_outside s.ram base bytes (paddr2vaddr p + x % min_page_size)
                      (inr (ground (arith, in_page (paddr2vaddr p) x offset same from)))
                    ∙ sym (page_byte s (offset / min_page_size) p x here same)
                    ∙ sym (store_outside (content s) offset bytes x (inr (ground arith)))
              ]
            ]
      ]
