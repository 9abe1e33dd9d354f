-- ===== src/Elf/Parse.antt =====
-- The parser on the files that a linker writes, and on any bytes.
use ftl.Base.{
  ℕ, ◌+◌, ◌*◌, ◌^◌, ◌<◌, ◌≡◌, refl, sym, ap, subst, ◌∙◌, arith, false, true, ltb, ◌%◌, ◌==◌, List,
  [], ◌∷◌, ◌++◌, length, length-append, some, get_elem?, All, done, ok,
}
use ftl.Base.Word.{IsUsize, add-done, mul-done}
use ftl.Base.Bytes.{
  bytes_at, word_at, IsCursor, move, advance, regroup, write_fields, word_at-field,
  bytes_at-IsCursor, length-write_fields,
}
use ftl.Base.Fallible.{return}
use ftl.Elf.{
  Ehdr, Phdr, Elf, ehdr_size, phdr_size, em_native, read_ehdr, read_phdr, read_phdrs, check_ehdr,
  parse_phdrs, parse, magic,
}

-- The fields behind `e_ident`, and those of a program header, with their widths.
abbrev pub ehdr_fields : Ehdr → List (ℕ × ℕ)
ehdr_fields h =
    (2, h.e_type)
    ∷ (2, h.e_machine)
    ∷ (4, h.e_version)
    ∷ (8, h.e_entry)
    ∷ (8, h.e_phoff)
    ∷ (8, h.e_shoff)
    ∷ (4, h.e_flags)
    ∷ (2, h.e_ehsize)
    ∷ (2, h.e_phentsize)
    ∷ (2, h.e_phnum)
    ∷ (2, h.e_shentsize)
    ∷ (2, h.e_shnum)
    ∷ (2, h.e_shstrndx)
    ∷ []

abbrev pub phdr_fields : Phdr → List (ℕ × ℕ)
phdr_fields p =
    (4, p.p_type)
    ∷ (4, p.p_flags)
    ∷ (8, p.p_offset)
    ∷ (8, p.p_vaddr)
    ∷ (8, p.p_paddr)
    ∷ (8, p.p_filesz)
    ∷ (8, p.p_memsz)
    ∷ (8, p.p_align)
    ∷ []

-- Each value fits in its width.
abbrev pub Fit : List (ℕ × ℕ) → Type 0
Fit [] = Unit
Fit ((k, n) ∷ fs) = (n < 256 ^ k) × Fit fs

unfoldable pub write_ehdr : Ehdr → List ℕ
write_ehdr h = h.e_ident ++ write_fields (ehdr_fields h)

unfoldable pub write_phdrs : List Phdr → List ℕ
write_phdrs [] = []
write_phdrs (p ∷ ps) = write_fields (phdr_fields p) ++ write_phdrs ps

read_phdr-IsCursor :
    (buf : List ℕ) (at : ℕ) (p : Phdr) (rest : List ℕ)
    → IsCursor buf at (write_fields (phdr_fields p) ++ rest)
    → Fit (phdr_fields p)
    → read_phdr buf at ≡ p
unfolding read_phdr
read_phdr-IsCursor buf at p rest c (f0, (f1, (f2, (f3, (f4, (f5, (f6, (f7, _)))))))) =
    let field = λ (i k n : ℕ) (e : get_elem? (phdr_fields p) i ≡ some (k, n)) (h : n < 256 ^ k).
      word_at-field (phdr_fields p) rest i k n c e h in
    let first : at + 0 ≡ at = omega arith in
    λ t. record {
      p_type = subst (λ q. word_at buf q 4 ≡ p.p_type) first (field 0 4 p.p_type refl f0) t;
      p_flags = field 1 4 p.p_flags refl f1 t;
      p_offset = field 2 8 p.p_offset refl f2 t;
      p_vaddr = field 3 8 p.p_vaddr refl f3 t;
      p_paddr = field 4 8 p.p_paddr refl f4 t;
      p_filesz = field 5 8 p.p_filesz refl f5 t;
      p_memsz = field 6 8 p.p_memsz refl f6 t;
      p_align = field 7 8 p.p_align refl f7 t;
    }

read_phdrs-IsCursor :
    (ps : List Phdr) (buf : List ℕ) (at : ℕ) (rest : List ℕ)
    → IsCursor buf at (write_phdrs ps ++ rest)
    → All (λ p. Fit (phdr_fields p)) ps
    → read_phdrs buf at (length ps) ≡ ps
unfolding read_phdrs write_phdrs
read_phdrs-IsCursor [] buf at rest c f = refl
read_phdrs-IsCursor (p ∷ ps) buf at rest c f =
    let c' = regroup (write_fields (phdr_fields p)) (write_phdrs ps) rest c in
    let head = read_phdr-IsCursor buf at p (write_phdrs ps ++ rest) c' f.0 in
    let tail =
      read_phdrs-IsCursor ps buf (at + phdr_size) rest
        (advance (write_fields (phdr_fields p)) phdr_size c' (length-write_fields (phdr_fields p)))
        f.1 in
    rw (head, tail) refl

read_ehdr-IsCursor :
    (buf : List ℕ) (h : Ehdr) (rest : List ℕ)
    → IsCursor buf 0 (write_ehdr h ++ rest)
    → length h.e_ident ≡ 16
    → Fit (ehdr_fields h)
    → read_ehdr buf ≡ h
unfolding read_ehdr write_ehdr
read_ehdr-IsCursor buf h rest c ident
      (f0, (f1, (f2, (f3, (f4, (f5, (f6, (f7, (f8, (f9, (f10, (f11, (f12, _))))))))))))) =
    let c' = regroup h.e_ident (write_fields (ehdr_fields h)) rest c in
    let after = advance h.e_ident 16 c' ident in
    let field = λ (i k n : ℕ) (e : get_elem? (ehdr_fields h) i ≡ some (k, n)) (fit : n < 256 ^ k).
      word_at-field (ehdr_fields h) rest i k n after e fit in
    λ t. record {
      e_ident = (ap (bytes_at buf 0) (sym ident) ∙ bytes_at-IsCursor h.e_ident _ c') t;
      e_type = field 0 2 h.e_type refl f0 t;
      e_machine = field 1 2 h.e_machine refl f1 t;
      e_version = field 2 4 h.e_version refl f2 t;
      e_entry = field 3 8 h.e_entry refl f3 t;
      e_phoff = field 4 8 h.e_phoff refl f4 t;
      e_shoff = field 5 8 h.e_shoff refl f5 t;
      e_flags = field 6 4 h.e_flags refl f6 t;
      e_ehsize = field 7 2 h.e_ehsize refl f7 t;
      e_phentsize = field 8 2 h.e_phentsize refl f8 t;
      e_phnum = field 9 2 h.e_phnum refl f9 t;
      e_shentsize = field 10 2 h.e_shentsize refl f10 t;
      e_shnum = field 11 2 h.e_shnum refl f11 t;
      e_shstrndx = field 12 2 h.e_shstrndx refl f12 t;
    }

-- A file: its header, a gap, the program headers, and the rest.
unfoldable pub write_elf : Elf → List ℕ → List ℕ → List ℕ
unfolding write_ehdr write_phdrs
write_elf elf gap rest = write_ehdr elf.ehdr ++ (gap ++ (write_phdrs elf.phdrs ++ rest))

-- What the format asks of the headers.
pub record IsElf (elf : Elf) (gap : List ℕ) : Type 0 where
  pub ident : length elf.ehdr.e_ident ≡ 16
  pub magic_bytes : bytes_at elf.ehdr.e_ident 0 4 ≡ magic
  pub machine : elf.ehdr.e_machine ≡ em_native
  pub ehsize : elf.ehdr.e_ehsize ≡ ehdr_size
  pub phentsize : elf.ehdr.e_phentsize ≡ phdr_size
  pub phnum : elf.ehdr.e_phnum ≡ length elf.phdrs
  pub phoff : elf.ehdr.e_phoff ≡ ehdr_size + length gap
  pub fields : Fit (ehdr_fields elf.ehdr)
  pub phdr_fit : All (λ p. Fit (phdr_fields p)) elf.phdrs

length-write_phdrs : (ps : List Phdr) → length (write_phdrs ps) ≡ length ps * phdr_size
unfolding write_phdrs
length-write_phdrs [] = refl
length-write_phdrs (p ∷ ps) = omega (
  arith,
  length-append (write_fields (phdr_fields p)) (write_phdrs ps),
  length-write_fields (phdr_fields p),
  length-write_phdrs ps,
)

length-write_ehdr : (h : Ehdr) → length h.e_ident ≡ 16 → length (write_ehdr h) ≡ ehdr_size
unfolding write_ehdr
length-write_ehdr h e = omega (
  arith,
  length-append h.e_ident (write_fields (ehdr_fields h)),
  length-write_fields (ehdr_fields h),
)

length-write_elf :
    (elf : Elf) (gap rest : List ℕ)
    → length elf.ehdr.e_ident ≡ 16
    → length (write_elf elf gap rest)
      ≡ ehdr_size + length gap + length elf.phdrs * phdr_size + length rest
unfolding write_elf
length-write_elf elf gap rest e = omega (
  arith,
  length-append (write_ehdr elf.ehdr) (gap ++ (write_phdrs elf.phdrs ++ rest)),
  length-append gap (write_phdrs elf.phdrs ++ rest),
  length-append (write_phdrs elf.phdrs) rest,
  length-write_ehdr elf.ehdr e,
  length-write_phdrs elf.phdrs,
)

check_ehdr-IsElf :
    (elf : Elf) (gap : List ℕ) → IsElf elf gap → check_ehdr elf.ehdr elf.ehdr.e_type ≡ return tt
unfolding check_ehdr
check_ehdr-IsElf elf gap e = rw (e.magic_bytes, e.machine, e.ehsize, e.phentsize) (ground arith)

start_of :
    (elf : Elf) (gap rest : List ℕ)
    → IsCursor
        (write_elf elf gap rest)
        0
        (write_ehdr elf.ehdr ++ (gap ++ (write_phdrs elf.phdrs ++ rest)))
unfolding write_elf
start_of elf gap rest = record { prefix = []; whole = refl; place = refl }

parse_phdrs-write_elf :
    (base : ℕ) (elf : Elf) (gap rest : List ℕ)
    → IsElf elf gap
    → (base + elf.ehdr.e_phoff) % 8 ≡ 0
    → IsUsize (length (write_elf elf gap rest))
    → parse_phdrs base (write_elf elf gap rest) elf.ehdr ≡ done (ok elf)
unfolding parse_phdrs
parse_phdrs-write_elf base elf gap rest e aligned small =
    let whole : ((base + (ehdr_size + length gap)) % 8 == 0) ≡ true =
      let off = e.phoff in ground arith in
    let buf = write_elf elf gap rest in
    let size = length-write_elf elf gap rest e.ident in
    let after =
      advance gap (length gap)
        (advance (write_ehdr elf.ehdr) ehdr_size (start_of elf gap rest)
          (length-write_ehdr elf.ehdr e.ident))
        refl in
    let table =
      read_phdrs-IsCursor elf.phdrs buf (ehdr_size + length gap) rest (move after (omega arith))
        e.phdr_fit in
    let fits : ltb (length buf) (ehdr_size + length gap + length elf.phdrs * phdr_size) ≡ false =
      ground arith in
    simp
      (
        e.phnum,
        e.phoff,
        mul-done (length elf.phdrs) phdr_size (omega arith),
        add-done (ehdr_size + length gap) (length elf.phdrs * phdr_size) (omega arith),
        fits,
        whole,
        table,
      )
      refl

-- The parser gives back the headers of a well-formed file of the type that is asked for, whatever stands
-- between and behind them, if the length of the file is a `usize`, and if the file and the program headers in it stand at
-- addresses that are multiples of 8.
pub parse-write_elf :
    (base : ℕ) (elf : Elf) (gap rest : List ℕ)
    → IsElf elf gap
    → base % 8 ≡ 0
    → length gap % 8 ≡ 0
    → IsUsize (length (write_elf elf gap rest))
    → parse base (write_elf elf gap rest) elf.ehdr.e_type ≡ done (ok elf)
unfolding parse
parse-write_elf base elf gap rest e whole whole_gap small =
    let buf = write_elf elf gap rest in
    let size = length-write_elf elf gap rest e.ident in
    let long : ltb (length buf) ehdr_size ≡ false = ground arith in
    let aligned : (base % 8 == 0) ≡ true = ground arith in
    let start = start_of elf gap rest in
    let header = read_ehdr-IsCursor buf elf.ehdr _ start e.ident e.fields in
    rw (parse, long, aligned, header, check_ehdr-IsElf elf gap e)
      (parse_phdrs-write_elf base elf gap rest e (omega (arith, e.phoff)) small)
