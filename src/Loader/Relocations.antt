-- ===== src/Loader/Relocations.antt =====
-- The relocations of kernel/src/loader.rs stay in the image.
use ftl.Base.{
  ℕ, zero, suc, ◌+◌, ◌/◌, ◌%◌, ◌≤◌, ◌≡◌, refl, sym, subst, ◌∙◌, arith, ◌⊎◌, inl, inr, ltb, leb,
  true, ◌<◌, ◌^◌, ◌==◌, ◌&&◌, not, Bool-cases, List, length, Result, done, ok, err,
}
use ftl.Base.Word.{usize_mod}
use ftl.Base.Bytes.{to_le_bytes, length-to_le_bytes}
use ftl.Base.Fallible.{Fallible}
use ftl.Base.Ram.{Ram, store, store_after}
use ftl.Elf.{Rela}
use ftl.Loader.{
  Error, bad_reloc_size, check_relocation, relocated, read_rela, rela_entry_size, apply_relocations,
  relocate,
}

-- An error, or an image of which nothing past `size` has changed.
abbrev pub Inside : ℕ → Ram → Fallible Ram Error → Type 0
Inside size image r =
    ((e : Error) × (r ≡ done (err e)))
    ⊎ ((image' : Ram) × (r ≡ done (ok image')) × ((x : ℕ) → size ≤ x → image' x ≡ image x))

store_within :
    (image : Ram) (at size value x : ℕ)
    → at + 8 ≤ size
    → size ≤ x
    → store image at (to_le_bytes 8 value) x ≡ image x
store_within image at size value x h k =
    let bytes : List ℕ = to_le_bytes 8 value in
    let l : length bytes ≡ 8 = length-to_le_bytes 8 value in
    store_after image at bytes x (omega arith)

Inside-trans :
    {size : ℕ} {image next : Ram} {r : Fallible Ram Error}
    → ((x : ℕ) → size ≤ x → next x ≡ image x)
    → Inside size next r
    → Inside size image r
Inside-trans h (inl e) = inl e
Inside-trans h (inr (image', e, kept)) = inr (image', e, λ x le. kept x le ∙ h x le)

-- A relocation that passes the checks ends in the image.
check_relocation-ok :
    (image_size : ℕ) (rela : Rela) (target_end : ℕ)
    → check_relocation image_size rela ≡ ok target_end
    → (target_end ≡ rela.r_offset + 8) × (rela.r_offset + 8 ≤ image_size)
unfolding check_relocation
check_relocation-ok image_size rela target_end e = (ground (arith, e), ground (arith, e))

apply_relocations-refuse :
    (left base image_size at : ℕ) (image : Ram) (e : Error)
    → check_relocation image_size (read_rela image at) ≡ err e
    → apply_relocations (suc left) base image_size at image ≡ done (err e)
unfolding apply_relocations
apply_relocations-refuse left base image_size at image e h = rw (apply_relocations, h) refl

apply_relocations-store :
    (left base image_size at target_end : ℕ) (image : Ram)
    → check_relocation image_size (read_rela image at) ≡ ok target_end
    → apply_relocations (suc left) base image_size at image
      ≡ apply_relocations left base image_size
          (at + rela_entry_size)
          (store image (read_rela image at).r_offset (relocated base (read_rela image at)))
unfolding apply_relocations
apply_relocations-store left base image_size at target_end image h =
    let rela : Rela = read_rela image at in
    let bounds = check_relocation-ok image_size rela target_end h in
    let ordered : leb rela.r_offset target_end ≡ true = ground (arith, bounds) in
    let inside : leb target_end image_size ≡ true = ground (arith, bounds) in
    rw (apply_relocations, h, ordered, inside) refl

Result-cases : (r : Result ℕ Error) → ((e : Error) × (r ≡ err e)) ⊎ ((t : ℕ) × (r ≡ ok t))
Result-cases (ok t) = inr (t, refl)
Result-cases (err e) = inl (e, refl)

apply_relocations-Inside :
    (left base image_size at : ℕ) (image : Ram)
    → Inside image_size image (apply_relocations left base image_size at image)
unfolding apply_relocations
apply_relocations-Inside zero base image_size at image = inr (image, refl, λ x h. refl)
apply_relocations-Inside (suc left) base image_size at image =
    let rela : Rela = read_rela image at in
    let next : Ram = store image rela.r_offset (relocated base rela) in
    elim (Result-cases (check_relocation image_size rela)) [
      | inl (e, h) ↦ inl (e, apply_relocations-refuse left base image_size at image e h)
      | inr (t, h) ↦
          let low = (check_relocation-ok image_size rela t h).1 in
          subst (Inside image_size image)
            (sym (apply_relocations-store left base image_size at t image h))
            (Inside-trans
              (λ x k.
                store_within image rela.r_offset image_size ((base + rela.r_addend) % usize_mod) x
                  low k)
              (apply_relocations-Inside left base image_size (at + rela_entry_size) next))
    ]

-- With a relocation table that is aligned and in the image, whatever its entries are, the relocations do not panic; they end
-- with an error, or nothing past the image has changed.
pub relocate-Inside :
    (base image_size rela_addr rela_size : ℕ) (image : Ram)
    → (base + rela_addr) % 8 ≡ 0
    → rela_addr + rela_size ≤ image_size
    → image_size < 2 ^ 63
    → Inside image_size image (relocate base image_size (rela_addr, rela_size) image)
unfolding relocate
relocate-Inside base image_size rela_addr rela_size image whole_addr inside small =
    let aligned : ((base + rela_addr) % 8 == 0) ≡ true = ground arith in
    let short : ltb rela_size (2 ^ 63) ≡ true = ground arith in
    elim (Bool-cases (not (rela_addr == 0) && ltb 0 rela_size)) [
      | inr none_found ↦ inr (image, rw (relocate, none_found) refl, λ x h. refl)
      | inl is ↦ elim (Bool-cases (rela_size % rela_entry_size == 0)) [
        | inr odd ↦ inl (bad_reloc_size, rw (relocate, is, odd) refl)
        | inl whole ↦
            let e : relocate base image_size (rela_addr, rela_size) image
                ≡ apply_relocations (rela_size / rela_entry_size) base image_size rela_addr image =
              rw (relocate, is, whole, aligned, short) refl in
            subst (Inside image_size image) (sym e) (
              apply_relocations-Inside (rela_size / rela_entry_size) base image_size rela_addr
                image)
      ]
    ]
