-- ===== src/Elf/Outcome.antt =====
-- What the parser does on any bytes.
use ftl.Base.{
  ℕ, ◌+◌, ◌*◌, ◌≤◌, ◌≡◌, ◌≢◌, ◌%◌, ◌⊎◌, inl, inr, refl, arith, true, Bool-cases, ltb, ◌==◌, List,
  length, suc, zero, done, panic, ok, err,
}
use ftl.Base.Word.{IsUsize, add-done, mul-done, usize_mod}
use ftl.Base.Bytes.{bytes_at}
use ftl.Base.Fallible.{Fallible, return}
use ftl.Initfs.{same_bytes}
use ftl.Elf.{
  Ehdr, Elf, ParseError, buffer_too_short, invalid_magic, invalid_etype, invalid_machine,
  invalid_ehdr_size, invalid_phdr_size, ehdr_size, phdr_size, em_native, read_ehdr, read_phdrs,
  check_ehdr, parse_phdrs, parse, magic,
}

-- The header of a file for this machine, of the type that is asked for.
pub record IsNative (h : Ehdr) (expected_type : ℕ) : Type 0 where
  pub magic_bytes : same_bytes (bytes_at h.e_ident 0 4) magic ≡ true
  pub type : h.e_type ≡ expected_type
  pub machine : h.e_machine ≡ em_native
  pub ehsize : h.e_ehsize ≡ ehdr_size
  pub phentsize : h.e_phentsize ≡ phdr_size

-- The end of the program headers.
abbrev pub table_end : Ehdr → ℕ
table_end h = h.e_phoff + h.e_phnum * phdr_size

abbrev pub Rejects {ℓ} : {A : Type ℓ} → Fallible A ParseError → Type ℓ
Rejects run = (e : ParseError) × (run ≡ done (err e))

check_ehdr_lem :
    (h : Ehdr) (t : ℕ) → Rejects (check_ehdr h t) ⊎ ((check_ehdr h t ≡ return tt) × IsNative h t)
unfolding check_ehdr
check_ehdr_lem h t = elim (Bool-cases (same_bytes (bytes_at h.e_ident 0 4) magic)) [
  | inr e ↦ inl (invalid_magic, rw e refl)
  | inl e0 ↦ elim (Bool-cases (h.e_type == t)) [
    | inr e ↦ inl (invalid_etype, rw (e0, e) refl)
    | inl e1 ↦ elim (Bool-cases (h.e_machine == em_native)) [
      | inr e ↦ inl (invalid_machine, rw (e0, e1, e) refl)
      | inl e2 ↦ elim (Bool-cases (h.e_ehsize == ehdr_size)) [
        | inr e ↦ inl (invalid_ehdr_size, rw (e0, e1, e2, e) refl)
        | inl e3 ↦ elim (Bool-cases (h.e_phentsize == phdr_size)) [
          | inr e ↦ inl (invalid_phdr_size, rw (e0, e1, e2, e3, e) refl)
          | inl e4 ↦ inr (
            rw (e0, e1, e2, e3, e4) refl,
            record {
              magic_bytes = e0;
              type = ground arith;
              machine = ground arith;
              ehsize = ground arith;
              phentsize = ground arith;
            },
          )
        ]
      ]
    ]
  ]
]

length-read_phdrs : (buf : List ℕ) (at n : ℕ) → length (read_phdrs buf at n) ≡ n
unfolding read_phdrs
length-read_phdrs buf at zero = refl
length-read_phdrs buf at (suc n) = omega (arith, length-read_phdrs buf (at + phdr_size) n)

-- What is accepted: the headers stand inside the buffer.
pub record IsAccepted (base : ℕ) (buf : List ℕ) (t : ℕ) (elf : Elf) : Type 0 where
  pub header : elf.ehdr ≡ read_ehdr buf
  pub native : IsNative elf.ehdr t
  pub header_inside : ehdr_size ≤ length buf
  pub count : length elf.phdrs ≡ elf.ehdr.e_phnum
  pub table : elf.phdrs ≡ read_phdrs buf elf.ehdr.e_phoff elf.ehdr.e_phnum
  pub table_inside : table_end elf.ehdr ≤ length buf
  pub header_aligned : base % 8 ≡ 0
  pub table_aligned : (base + elf.ehdr.e_phoff) % 8 ≡ 0

-- The end of the program headers is past 2 ^ 64; or they are in the buffer, and not aligned.
abbrev pub BadTable : ℕ → List ℕ → Ehdr → Type 0
BadTable base buf h =
    (¬ (IsUsize (table_end h))) ⊎ ((table_end h ≤ length buf) × ((base + h.e_phoff) % 8 ≢ 0))

parse_phdrs_lem :
    (base : ℕ) (buf : List ℕ) (h : Ehdr)
    → Rejects (parse_phdrs base buf h)
      ⊎ (((parse_phdrs base buf h
              ≡ done (ok (record { ehdr = h; phdrs = read_phdrs buf h.e_phoff h.e_phnum })))
            × (table_end h ≤ length buf)
            × ((base + h.e_phoff) % 8 ≡ 0))
          ⊎ ((parse_phdrs base buf h ≡ panic) × BadTable base buf h))
unfolding parse_phdrs
parse_phdrs_lem base buf h = elim (Bool-cases (ltb (table_end h) usize_mod)) [
  | inr over ↦ inr (inr (ground arith, inl (λ fits. ground arith)))
  | inl fits ↦
      let product = mul-done h.e_phnum phdr_size (ground arith) in
      let total = add-done h.e_phoff (h.e_phnum * phdr_size) (ground arith) in
      elim (Bool-cases (ltb (length buf) (table_end h))) [
        | inl short ↦ inl (buffer_too_short, simp (product, total, short) refl)
        | inr long ↦ elim (Bool-cases ((base + h.e_phoff) % 8 == 0)) [
          | inl aligned ↦
              inr (inl (simp (product, total, long, aligned) refl, ground arith, ground arith))
          | inr odd ↦
              inr
                (inr (simp (product, total, long, odd) refl, inr (ground arith, λ e. ground arith)))
        ]
      ]
]

-- On any bytes at any address the parser rejects the file, or accepts it with every header inside the buffer and
-- aligned and all its checks satisfied, or panics; and it panics only where the buffer is not aligned to 8, or, in a file that
-- satisfies the checks before, the end of the program headers is past 2 ^ 64 or they are in the buffer and not aligned to 8.
pub parse_outcome :
    (base : ℕ) (buf : List ℕ) (t : ℕ)
    → Rejects (parse base buf t)
      ⊎ (((elf : Elf) × (parse base buf t ≡ done (ok elf)) × IsAccepted base buf t elf)
          ⊎ ((parse base buf t ≡ panic)
              × ((base % 8 ≢ 0)
                  ⊎ (IsNative (read_ehdr buf) t × BadTable base buf (read_ehdr buf)))))
unfolding parse
parse_outcome base buf t = elim (Bool-cases (ltb (length buf) ehdr_size)) [
  | inl short ↦ inl (buffer_too_short, rw (parse, short) refl)
  | inr long ↦ elim (Bool-cases (base % 8 == 0)) [
    | inr odd ↦ inr (inr (rw (parse, long, odd) refl, inl (λ e. ground arith)))
    | inl whole ↦ elim (check_ehdr_lem (read_ehdr buf) t) [
      | inl (e, bad) ↦ inl (e, rw (parse, long, whole, bad) refl)
      | inr (good, native) ↦ elim (parse_phdrs_lem base buf (read_ehdr buf)) [
        | inl (e, short) ↦ inl (e, rw (parse, long, whole, good) short)
        | inr (inr (over, big)) ↦ inr (inr (rw (parse, long, whole, good) over, inr (native, big)))
        | inr (inl (found, inside, aligned)) ↦ inr (
            inl (
              record {
                ehdr = read_ehdr buf;
                phdrs = read_phdrs buf (read_ehdr buf).e_phoff (read_ehdr buf).e_phnum;
              },
              rw (parse, long, whole, good) found,
              record {
                header = refl;
                native = native;
                header_inside = ground arith;
                count = length-read_phdrs buf _ _;
                table = refl;
                table_inside = inside;
                header_aligned = ground arith;
                table_aligned = aligned;
              },
            ))
      ]
    ]
  ]
]
