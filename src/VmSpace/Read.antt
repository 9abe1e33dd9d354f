-- ===== src/VmSpace/Read.antt =====
-- `read_bytes` of kernel/src/vmspace.rs against the memory that the mappings make up.
use ftl.Base.{
  ℕ, suc, ◌+◌, ◌-◌, ◌≤◌, ◌<◌, ◌≡◌, ◌∙◌, ap, ap₂, refl, sym, subst, arith, ◌⊎◌, inl, inr, ltb, true,
  Bool-cases, Option, none, some, List, [], ◌∷◌, ◌++◌, length, length-drop, drop, min, All,
  All-mono, Exec, done, Result, ok, err,
}
use ftl.Base.Word.{IsUsize, usize_mod}
use ftl.Base.Ram.{Ram, load, load-cong, load-append}
use ftl.Api.ErrorCode.{ErrorCode, out_of_memory}
use ftl.VmSpace.{Backend, Act, ◌>>=◌, return, Mapping, read_mappings}
use ftl.VmSpace.Mapped.{find-head, find-tail, find-below, within, find, Before, IsSpace}

-- What the areas promise: the bytes of an area; a read within it gives them, or there is no memory for a page; it changes no
-- byte of any area.
pub record Areas (b : Backend) : Type 1 where
  pub Valid : b.Store → Type 0
  pub byte : b.Store → b.Area → ℕ → ℕ
  pub fetch :
      (area : b.Area) (offset n : ℕ) (s : b.Store)
      → Valid s
      → offset + n ≤ b.len area
      → (s' : b.Store) × Valid s'
        × ((other : b.Area) (i : ℕ) → byte s' other i ≡ byte s other i)
        × ((b.read area offset n s ≡ done (ok (load (byte s area) offset n), s'))
            ⊎ (b.read area offset n s ≡ done (err out_of_memory, s')))

module _ (b : Backend) (areas : Areas b) where
  open b use {Area, Store, len, read}
  open areas use {Valid, byte, fetch}

  -- The byte that an address space shows at an address.
  abbrev pub byte_of : Store → Option (Mapping b) → ℕ → ℕ
  byte_of s none x = 0
  byte_of s (some m) x = byte s m.vmarea (x - m.start)

  abbrev pub memory : List (Mapping b) → Store → Ram
  memory ms s x = byte_of s (find b ms x) x

  -- The mappings are as long as their areas.
  abbrev pub Fit : List (Mapping b) → Type 0
  Fit ms = All (λ m. m.end ≡ m.start + len m.vmarea) ms

  -- The end of a read: these bytes, or there is no memory for a page; no byte changes.
  abbrev pub Fetched : Store → List ℕ → Exec (Result (List ℕ) ErrorCode × Store) → Type 0
  Fetched s bytes run =
      (s' : Store) × Valid s'
      × ((area : Area) (i : ℕ) → byte s' area i ≡ byte s area i)
      × ((run ≡ done (ok bytes, s')) ⊎ (run ≡ done (err out_of_memory, s')))

  -- Of bytes from `uaddr` on, `n` are mapped.
  abbrev pub Covered : List (Mapping b) → ℕ → ℕ → Type 0
  Covered ms uaddr n = (i : ℕ) → i < n → (m : Mapping b) × (find b ms (uaddr + i) ≡ some m)

  -- The first mapping of the loop holds the address, if a byte is left.
  first_within :
      (m : Mapping b) (ms : List (Mapping b)) (uaddr n : ℕ)
      → IsSpace b (m ∷ ms)
      → uaddr ≤ m.start ⊎ (within b m uaddr ≡ true)
      → Covered (m ∷ ms) uaddr (suc n)
      → within b m uaddr ≡ true
  first_within m ms uaddr n space (inr e) cover = e
  first_within m ms uaddr n space (inl low) cover = elim (Bool-cases (within b m uaddr)) [
    | inl e ↦ e
    | inr e ↦
        let (found, e') = cover 0 (omega arith) in
        let place : uaddr + 0 ≡ uaddr = omega arith in
        let starts : All (λ k. m.start ≤ k.start) (m ∷ ms) =
          (omega arith, All-mono ms (λ k h. omega (arith, space.0.0)) space.1.0) in
        absurd (
          cc (
            find-below b (m ∷ ms) uaddr m.start starts (ground (arith, space.0.0)),
            rw place at e',
          ))
  ]

  byte_of_same :
      (s s1 : Store) (o : Option (Mapping b)) (x : ℕ)
      → ((area : Area) (i : ℕ) → byte s1 area i ≡ byte s area i)
      → byte_of s1 o x ≡ byte_of s o x
  byte_of_same s s1 none x same = refl
  byte_of_same s s1 (some m) x same = same m.vmarea (x - m.start)

  -- The loop stands before its first mapping, or in it.
  abbrev pub AtHead : List (Mapping b) → ℕ → Type 0
  AtHead [] uaddr = Unit
  AtHead (m ∷ ms) uaddr = (uaddr ≤ m.start) ⊎ (within b m uaddr ≡ true)

  AtHead-past :
      (m : Mapping b) (ms : List (Mapping b)) (y : ℕ)
      → All (Before b m) ms
      → y ≤ m.end
      → AtHead ms y
  AtHead-past m [] y all h = tt
  AtHead-past m (n ∷ ns) y all h = inl (omega (arith, all.0))

  -- One round.
  pub read_mappings_step :
      (m : Mapping b) (ms : List (Mapping b)) (uaddr x : ℕ) (xs chunk : List ℕ) (s s1 : Store)
      → within b m uaddr ≡ true
      → let n = min (length (x ∷ xs)) (m.end - uaddr) in
        IsUsize (uaddr + n)
        → read m.vmarea (uaddr - m.start) n s ≡ done (ok chunk, s1)
        → read_mappings b (m ∷ ms) uaddr (x ∷ xs) s
          ≡ (read_mappings b ms (uaddr + n) (drop n (x ∷ xs)) >>= λ rest. return (chunk ++ rest)) s1
  unfolding read_mappings
  read_mappings_step m ms uaddr x xs chunk s s1 e small run =
      let fits : ltb (uaddr + min (length (x ∷ xs)) (m.end - uaddr)) usize_mod ≡ true =
        ground arith in
      rw (read_mappings, ◌>>=◌, e, run, fits) refl

  pub read_mappings_error :
      (m : Mapping b) (ms : List (Mapping b)) (uaddr x : ℕ) (xs : List ℕ) (e : ErrorCode)
      (s s1 : Store)
      → within b m uaddr ≡ true
      → read m.vmarea (uaddr - m.start) (min (length (x ∷ xs)) (m.end - uaddr)) s ≡ done (err e, s1)
      → read_mappings b (m ∷ ms) uaddr (x ∷ xs) s ≡ done (err e, s1)
  unfolding read_mappings
  read_mappings_error m ms uaddr x xs e s s1 inside run =
      rw (read_mappings, ◌>>=◌, inside, run) refl

  -- A chunk and then the rest.
  pub fetch_rest :
      (s s1 : Store) (chunk rest all : List ℕ) (act : Act Store (List ℕ))
      → ((area : Area) (i : ℕ) → byte s1 area i ≡ byte s area i)
      → chunk ++ rest ≡ all
      → Fetched s1 rest (act s1)
      → Fetched s all ((act >>= λ bytes. return (chunk ++ bytes)) s1)
  fetch_rest s s1 chunk rest all act same e (s2, valid, same', inl run) = (
    s2,
    valid,
    (λ area i. same' area i ∙ same area i),
    inl (rw (◌>>=◌, run) (ap (λ (bytes : List ℕ). done (ok bytes, s2)) e)),
  )
  fetch_rest s s1 chunk rest all act same e (s2, valid, same', inr run) =
      (s2, valid, (λ area i. same' area i ∙ same area i), inr (rw (◌>>=◌, run) refl))

  pub read_mappings-nil :
      (uaddr : ℕ) (buf : List ℕ) (s : Store) → read_mappings b [] uaddr buf s ≡ done (ok buf, s)
  unfolding read_mappings
  read_mappings-nil uaddr buf s = refl

  pub empty_range :
      (ms : List (Mapping b)) (s : Store) (uaddr : ℕ)
      → Valid s
      → Fetched s (load (memory ms s) uaddr 0) (done (ok [], s))
  unfolding load
  empty_range ms s uaddr valid = (s, valid, (λ area i. refl), inl refl)

  module _ (m : Mapping b) (ms : List (Mapping b)) (uaddr : ℕ) (buf : List ℕ) (s s1 : Store)
      (inside : within b m uaddr ≡ true) (cover : Covered (m ∷ ms) uaddr (length buf))
      (same : (area : Area) (i : ℕ) → byte s1 area i ≡ byte s area i) where
    abbrev copied : ℕ
    copied = min (length buf) (m.end - uaddr)

    abbrev left : ℕ
    left = length (drop copied buf)

    chunk_lem :
        load (byte s m.vmarea) (uaddr - m.start) copied ≡ load (memory (m ∷ ms) s) uaddr copied
    chunk_lem =
        load-cong copied (byte s m.vmarea) (memory (m ∷ ms) s) (uaddr - m.start) uaddr λ i lt.
          ap (byte s m.vmarea) (ground arith)
          ∙ ap (λ (o : Option (Mapping b)). byte_of s o (uaddr + i))
              (sym (find-head b m ms (uaddr + i) (ground arith)))

    past_end :
        (i : ℕ) → i < left → find b (m ∷ ms) (uaddr + copied + i) ≡ find b ms (uaddr + copied + i)
    past_end i lt = find-tail b m ms (uaddr + copied + i) (ground (arith, length-drop copied buf))

    rest_lem :
        load (memory ms s1) (uaddr + copied) left ≡ load (memory (m ∷ ms) s) (uaddr + copied) left
    rest_lem =
        load-cong left (memory ms s1) (memory (m ∷ ms) s) (uaddr + copied) (uaddr + copied) λ i lt.
          let x = uaddr + copied + i in
          byte_of_same s s1 (find b ms x) x same
          ∙ ap (λ (o : Option (Mapping b)). byte_of s o x) (sym (past_end i lt))

    rest_cover : Covered ms (uaddr + copied) left
    rest_cover i lt =
        let (found, e) = cover (copied + i) (omega (arith, length-drop copied buf)) in
        let place : uaddr + copied + i ≡ uaddr + (copied + i) = omega arith in
        (found, sym (past_end i lt) ∙ ap (find b (m ∷ ms)) place ∙ e)

    joined :
        load (byte s m.vmarea) (uaddr - m.start) copied ++ load (memory ms s1) (uaddr + copied) left
        ≡ load (memory (m ∷ ms) s) uaddr (length buf)
    joined =
        let total : copied + left ≡ length buf = omega (arith, length-drop copied buf) in
        ap₂ (λ c r. c ++ r) chunk_lem rest_lem
        ∙ load-append copied (memory (m ∷ ms) s) uaddr left
        ∙ ap (load (memory (m ∷ ms) s) uaddr) total

  pub read_mappings-Covered :
      (ms : List (Mapping b)) (uaddr : ℕ) (buf : List ℕ) (s : Store)
      → Valid s
      → IsSpace b ms
      → Fit ms
      → AtHead ms uaddr
      → Covered ms uaddr (length buf)
      → IsUsize (uaddr + length buf)
      → Fetched s (load (memory ms s) uaddr (length buf)) (read_mappings b ms uaddr buf s)
  unfolding read_mappings find
  read_mappings-Covered [] uaddr [] s valid space fit at cover small = empty_range [] s uaddr valid
  read_mappings-Covered [] uaddr (x ∷ xs) s valid space fit at cover small =
      let (m, e) = cover 0 (omega arith) in absurd (cc e)
  read_mappings-Covered (m ∷ ms) uaddr [] s valid space fit at cover small =
      empty_range (m ∷ ms) s uaddr valid
  read_mappings-Covered (m ∷ ms) uaddr (x ∷ xs) s valid space fit at cover small =
      let buf = x ∷ xs in
      let n = min (length buf) (m.end - uaddr) in
      let shorter = length-drop n buf in
      let inside = first_within m ms uaddr (length xs) space at cover in
      let bound : uaddr - m.start + n ≤ len m.vmarea = ground (arith, fit.0) in
      let (s1, valid', same, reply) = fetch m.vmarea (uaddr - m.start) n s valid bound in
      elim reply [
        | inr run ↦ (
          s1,
          valid',
          same,
          inr (read_mappings_error m ms uaddr x xs out_of_memory s s1 inside run),
        )
        | inl run ↦
            let chunk = load (byte s m.vmarea) (uaddr - m.start) n in
            let rest = load (memory ms s1) (uaddr + n) (length (drop n buf)) in
            let at' = AtHead-past m ms (uaddr + n) space.1.0 (ground arith) in
            let cover' = rest_cover m ms uaddr buf s s1 inside cover same in
            let more =
              read_mappings-Covered ms (uaddr + n) (drop n buf) s1 valid' (space.0.1, space.1.1)
                fit.1 at' cover' (omega arith) in
            subst (Fetched s (load (memory (m ∷ ms) s) uaddr (length buf)))
              (sym (read_mappings_step m ms uaddr x xs chunk s s1 inside (omega arith) run))
              (fetch_rest s s1 chunk rest (load (memory (m ∷ ms) s) uaddr (length buf))
                (read_mappings b ms (uaddr + n) (drop n buf)) same
                (joined m ms uaddr buf s s1 inside cover same) more)
      ]
