-- ===== src/Loader/Segments.antt =====
-- The image that kernel/src/loader.rs makes of the segments of a file.
use ftl.Base.{
  ℕ, zero, suc, ◌+◌, ◌-◌, ◌≤◌, ◌<◌, ◌≡◌, refl, ap, sym, ◌∙◌, arith, inl, inr, ltb, ◌==◌, true,
  false, Bool-cases, if◌then◌else◌, List, [], ◌∷◌, All, length, drop, length-take, length-drop,
  replicate, length-replicate, done, ◌>>=◌,
}
use ftl.Base.Word.{IsUsize, add, add-done, sub-done}
use ftl.Base.Bytes.{bytes_at}
use ftl.Base.Ram.{Ram, store, byte_or, store_before, store_after, store-nil}
use ftl.Elf.{Phdr, pt_load}
use ftl.Loader.{check_range, zero_rest, load_segment, load_segments}

-- The segment lies in the file and in the image, and its file part in the segment.
pub record Fits (elf_file : List ℕ) (image_size : ℕ) (p : Phdr) : Type 0 where
  pub in_file : p.p_offset + p.p_filesz ≤ length elf_file
  pub in_segment : p.p_filesz ≤ p.p_memsz
  pub in_image : p.p_vaddr + p.p_memsz ≤ image_size

-- The byte at `x` after the segment: one of the file, then zeros, and what was there outside.
unfoldable pub segment_byte : List ℕ → Phdr → ℕ → ℕ → ℕ
segment_byte elf_file p x old =
    if ltb x p.p_vaddr
    then old
    else if ltb x (p.p_vaddr + p.p_filesz)
    then byte_or (drop (x - p.p_vaddr) (bytes_at elf_file p.p_offset p.p_filesz)) 0
    else if ltb x (p.p_vaddr + p.p_memsz)
    then 0
    else old

-- Later segments replace earlier ones.
unfoldable pub image_byte : List ℕ → List Phdr → ℕ → ℕ → ℕ
image_byte elf_file [] x old = old
image_byte elf_file (p ∷ ps) x old =
    image_byte elf_file ps x (if p.p_type == pt_load then segment_byte elf_file p x old else old)

length-bytes_at :
    (bytes : List ℕ) (at n : ℕ) → at + n ≤ length bytes → length (bytes_at bytes at n) ≡ n
length-bytes_at bytes at n h =
    let l = length-take n (drop at bytes) in let d = length-drop at bytes in l ∙ omega (arith, d)

drop-replicate : (n i : ℕ) → i < n → byte_or (drop i (replicate n 0)) 0 ≡ 0
drop-replicate zero i h = absurd (omega arith)
drop-replicate (suc n) zero h = refl
drop-replicate (suc n) (suc i) h = drop-replicate n i (omega arith)

byte_or_within :
    (bytes : List ℕ) (i old : ℕ)
    → i < length bytes
    → byte_or (drop i bytes) old ≡ byte_or (drop i bytes) 0
byte_or_within [] i old h = absurd (omega arith)
byte_or_within (b ∷ bs) zero old h = refl
byte_or_within (b ∷ bs) (suc i) old h = byte_or_within bs i old (omega arith)

-- The byte at `x` in the run.
store_at :
    (ram : Ram) (at : ℕ) (bytes : List ℕ) (x : ℕ)
    → at ≤ x
    → x < at + length bytes
    → store ram at bytes x ≡ byte_or (drop (x - at) bytes) 0
unfolding store
store_at ram at bytes x low high =
    let past : ltb x at ≡ false = ground arith in
    rw past (byte_or_within bytes (x - at) (ram x) (omega arith))

store_zeros : (ram : Ram) (at n x : ℕ) → at ≤ x → x < at + n → store ram at (replicate n 0) x ≡ 0
store_zeros ram at n x low high =
    let zeros : List ℕ = replicate n 0 in
    let l : length zeros ≡ n = length-replicate n 0 in
    store_at ram at zeros x low (omega arith) ∙ drop-replicate n (x - at) (omega arith)

check_range-done : (len from to : ℕ) → from ≤ to → to ≤ len → check_range len from to ≡ done tt
check_range-done len from to h k = ground arith

-- The zeros behind the file's part.
zero_rest_lem :
    (image_size : ℕ) (image : Ram) (p : Phdr)
    → IsUsize image_size
    → p.p_filesz ≤ p.p_memsz
    → p.p_vaddr + p.p_memsz ≤ image_size
    → (image' : Ram) × (zero_rest image_size image p ≡ done image')
      × ((x : ℕ)
          → image' x
            ≡ store image (p.p_vaddr + p.p_filesz) (replicate (p.p_memsz - p.p_filesz) 0) x)
unfolding zero_rest
zero_rest_lem image_size image p u h k =
    let off = p.p_vaddr + p.p_filesz in
    let len = p.p_memsz - p.p_filesz in
    let e1 = add-done p.p_vaddr p.p_filesz (omega arith) in
    let e2 = sub-done p.p_memsz p.p_filesz h in
    let e3 : add off len ≡ done (off + len) = add-done off len (omega arith) in
    let e4 : check_range image_size off (off + len) ≡ done tt =
      check_range-done image_size off (off + len) (omega arith) (omega arith) in
    elim (Bool-cases (ltb 0 len)) [
      | inl some_left ↦ (
        store image off (replicate len 0),
        rw (zero_rest, ◌>>=◌, e1, e2, some_left, e3, e4) refl,
        λ x. refl,
      )
      | inr none_left ↦
          let nothing : len ≡ 0 = ground arith in
          (
            image,
            rw (zero_rest, ◌>>=◌, e1, e2, none_left) refl,
            λ x. rw nothing (sym (store-nil image off x)),
          )
    ]

-- The two runs of a segment are its bytes.
segment_at :
    (elf_file : List ℕ) (image : Ram) (p : Phdr) (x : ℕ) (part : List ℕ)
    → part ≡ bytes_at elf_file p.p_offset p.p_filesz
    → length part ≡ p.p_filesz
    → p.p_filesz ≤ p.p_memsz
    → store
        (store image p.p_vaddr part)
        (p.p_vaddr + p.p_filesz)
        (replicate (p.p_memsz - p.p_filesz) 0)
        x
      ≡ segment_byte elf_file p x (image x)
unfolding segment_byte
segment_at elf_file image p x part e l h =
    let first : Ram = store image p.p_vaddr part in
    let off = p.p_vaddr + p.p_filesz in
    let zeros : List ℕ = replicate (p.p_memsz - p.p_filesz) 0 in
    let n : length zeros ≡ p.p_memsz - p.p_filesz = length-replicate (p.p_memsz - p.p_filesz) 0 in
    elim (Bool-cases (ltb x p.p_vaddr)) [
      | inl before ↦ rw before (
          store_before first off zeros x (ground arith)
          ∙ store_before image p.p_vaddr part x (ground arith))
      | inr past ↦ elim (Bool-cases (ltb x off)) [
        | inl within ↦
            rw (past, within, ← e)
              (store_before first off zeros x (ground arith)
                ∙ store_at image p.p_vaddr part x (ground arith) (ground arith))
        | inr behind ↦ elim (Bool-cases (ltb x (p.p_vaddr + p.p_memsz))) [
          | inl rest ↦
              rw (past, behind, rest)
                (store_zeros first off (p.p_memsz - p.p_filesz) x (ground arith) (ground arith))
          | inr after ↦
              rw (past, behind, after)
                (store_after first off zeros x (ground arith)
                  ∙ store_after image p.p_vaddr part x (ground arith))
        ]
      ]
    ]

load_segment_lem :
    (elf_file : List ℕ) (image_size : ℕ) (image : Ram) (p : Phdr)
    → IsUsize (length elf_file)
    → IsUsize image_size
    → Fits elf_file image_size p
    → (image' : Ram) × (load_segment elf_file image_size image p ≡ done image')
      × ((x : ℕ) → image' x ≡ segment_byte elf_file p x (image x))
unfolding load_segment
load_segment_lem elf_file image_size image p small u fits =
    let a = fits.in_file in
    let b = fits.in_segment in
    let c = fits.in_image in
    let v = p.p_vaddr in
    let f = p.p_filesz in
    let part : List ℕ = bytes_at elf_file p.p_offset f in
    let l : length part ≡ f = length-bytes_at elf_file p.p_offset f a in
    let first : Ram = store image v part in
    let e1 = add-done p.p_offset f (omega arith) in
    let e2 : check_range (length elf_file) p.p_offset (p.p_offset + f) ≡ done tt =
      check_range-done (length elf_file) p.p_offset (p.p_offset + f) (omega arith) a in
    let e3 : add v f ≡ done (v + f) = add-done v f (omega arith) in
    let e4 : check_range image_size v (v + f) ≡ done tt =
      check_range-done image_size v (v + f) (omega arith) (omega arith) in
    let (image', e5, bytes) = zero_rest_lem image_size first p u b c in
    (
      image',
      rw (load_segment, ◌>>=◌, e1, e2, e3, e4, e5) refl,
      λ x. bytes x ∙ segment_at elf_file image p x part refl l b,
    )

load_segments-load :
    (p : Phdr) (ps : List Phdr) (elf_file : List ℕ) (image_size : ℕ) (image next : Ram)
    → (p.p_type == pt_load) ≡ true
    → load_segment elf_file image_size image p ≡ done next
    → load_segments (p ∷ ps) elf_file image_size image ≡ load_segments ps elf_file image_size next
unfolding load_segments
load_segments-load p ps elf_file image_size image next is e = rw (load_segments, is, ◌>>=◌, e) refl

load_segments-skip :
    (p : Phdr) (ps : List Phdr) (elf_file : List ℕ) (image_size : ℕ) (image : Ram)
    → (p.p_type == pt_load) ≡ false
    → load_segments (p ∷ ps) elf_file image_size image ≡ load_segments ps elf_file image_size image
unfolding load_segments
load_segments-skip p ps elf_file image_size image other = rw (load_segments, other) refl

-- For segments of which each that is to be loaded fits in the file and in the image, and lengths that are usizes, the
-- loop does not panic, and the byte at each place is that of the last segment over it, its byte of the file or a zero
-- behind these, and where there is none the byte that was there.
pub load_segments_lem :
    (ps : List Phdr) (elf_file : List ℕ) (image_size : ℕ) (image : Ram)
    → IsUsize (length elf_file)
    → IsUsize image_size
    → All (λ p. p.p_type ≡ pt_load → Fits elf_file image_size p) ps
    → (image' : Ram) × (load_segments ps elf_file image_size image ≡ done image')
      × ((x : ℕ) → image' x ≡ image_byte elf_file ps x (image x))
unfolding load_segments image_byte
load_segments_lem [] elf_file image_size image small u fits = (image, refl, λ x. refl)
load_segments_lem (p ∷ ps) elf_file image_size image small u (fit, fits) =
    elim (Bool-cases (p.p_type == pt_load)) [
      | inl is ↦
          let (next, e, bytes) =
            load_segment_lem elf_file image_size image p small u (fit (ground arith)) in
          let (image', e', bytes') = load_segments_lem ps elf_file image_size next small u fits in
          (
            image',
            load_segments-load p ps elf_file image_size image next is e ∙ e',
            λ x. bytes' x ∙ rw is (ap (image_byte elf_file ps x) (bytes x)),
          )
      | inr other ↦
          let (image', e', bytes') = load_segments_lem ps elf_file image_size image small u fits in
          (
            image',
            load_segments-skip p ps elf_file image_size image other ∙ e',
            λ x. bytes' x ∙ rw other refl,
          )
    ]
