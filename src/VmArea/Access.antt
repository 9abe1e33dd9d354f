-- ===== src/VmArea/Access.antt =====
-- `read` and `write` of kernel/src/vmarea.rs against an area as a plain sequence of bytes.
use ftl.Base.{
  ℕ, zero, suc, ◌+◌, ◌-◌, ◌*◌, ◌/◌, ◌%◌, ◌≤◌, ◌<◌, ◌≡◌, refl, sym, ap, ap₂, subst, ◌∙◌, ◌⊎◌, inl,
  inr, arith, some, List, [], ◌∷◌, ◌++◌, length, length-take, length-drop, take, drop, get_elem?,
  Exec, done, Result, ok, err, true, Bool-cases, ltb,
}
use ftl.Base.Word.{IsUsize, usize_mod}
use ftl.Base.Ram.{
  store, load, store_outside, store-nil, store-store, store-cong, load-cong, load-append,
}
use ftl.Arch.Direct.{min_page_size, paddr2vaddr}
use ftl.Api.ErrorCode.{ErrorCode, out_of_memory, out_of_bounds}
use ftl.VmArea.{
  State, Act, ◌>>=◌, return, get_or_fill, write_loop, read_loop, write, read, copy_len,
}
use ftl.VmArea.Fill.{content, IsValid, Grows, get_or_fill_lem}
use ftl.VmArea.Stored.{stored, stored-IsValid, stored-content, page_byte}

-- The end of a write: it puts the bytes in place and leaves the others, or there is no memory and the
-- bytes outside the run are what they were.
abbrev pub Written : State → ℕ → List ℕ → Exec (Result (Unit {0}) ErrorCode × State) → Type 0
Written s offset bytes run =
    (s' : State) × IsValid s'
    × (length s'.pages ≡ length s.pages)
    × (((run ≡ done (ok tt, s')) × ((x : ℕ) → content s' x ≡ store (content s) offset bytes x))
        ⊎ ((run ≡ done (err out_of_memory, s'))
            × ((x : ℕ) → (x < offset) ⊎ (offset + length bytes ≤ x) → content s' x ≡ content s x)))

write_nothing : (s : State) (offset : ℕ) → IsValid s → Written s offset [] (return tt s)
write_nothing s offset v = (s, v, refl, inl (refl, λ x. sym (store-nil (content s) offset x)))

write_loop_step :
    (rounds offset b : ℕ) (bs : List ℕ) (s s1 : State) (p : ℕ)
    → get_or_fill (offset / min_page_size) s ≡ done (ok p, s1)
    → let n = copy_len offset (length (b ∷ bs)) in
      write_loop (suc rounds) offset (b ∷ bs) s
      ≡ write_loop rounds (offset + n) (drop n (b ∷ bs)) (stored s1 offset p (take n (b ∷ bs)))
unfolding write_loop
write_loop_step rounds offset b bs s s1 p e = rw (write_loop, ◌>>=◌, e) refl

-- A chunk within a page, and then the rest.
module _ (s s1 : State) (offset p n : ℕ) (bytes : List ℕ) (grows : Grows s s1)
    (here : get_elem? s1.pages (offset / min_page_size) ≡ some (some p)) (part : n ≤ length bytes)
    (fits : offset % min_page_size + n ≤ min_page_size) where
  abbrev chunk : List ℕ
  chunk = take n bytes

  abbrev s2 : State
  s2 = stored s1 offset p chunk

  after_piece : (x : ℕ) → content s2 x ≡ store (content s) offset chunk x
  after_piece x =
      let size = length-take n bytes in
      stored-content s1 grows.valid offset p here chunk x (omega arith)
      ∙ store-cong (content s1) (content s) offset chunk x (grows.same x)

  piece_then_rest :
      (run : Exec (Result (Unit {0}) ErrorCode × State))
      → Written s2 (offset + n) (drop n bytes) run
      → Written s offset bytes run
  piece_then_rest run (s3, v3, size3, inl (e, c)) = (
    s3,
    v3,
    size3 ∙ grows.size,
    inl (
      e,
      λ x.
          c x
          ∙ store-cong (content s2) (store (content s) offset chunk) (offset + n) (drop n bytes) x
              (after_piece x)
          ∙ store-store (content s) offset n bytes x part,
    ),
  )
  piece_then_rest run (s3, v3, size3, inr (e, c)) = (
    s3,
    v3,
    size3 ∙ grows.size,
    inr (
      e,
      λ x out.
          let taken = length-take n bytes in
          let left = length-drop n bytes in
          c x (elim out [ inl lt ↦ inl (omega arith) | inr ge ↦ inr (omega arith) ])
          ∙ after_piece x
          ∙ store_outside (content s) offset chunk x
              (elim out [ inl lt ↦ inl lt | inr ge ↦ inr (omega arith) ]),
    ),
  )

write_loop_lem :
    (rounds offset : ℕ) (bytes : List ℕ) (s : State)
    → IsValid s
    → length bytes ≤ rounds
    → offset + length bytes ≤ min_page_size * length s.pages
    → Written s offset bytes (write_loop rounds offset bytes s)
unfolding write_loop
write_loop_lem zero offset [] s v enough inside = write_nothing s offset v
write_loop_lem zero offset (b ∷ bs) s v enough inside = absurd (omega arith)
write_loop_lem (suc rounds) offset [] s v enough inside = write_nothing s offset v
write_loop_lem (suc rounds) offset (b ∷ bs) s v enough inside =
    let all = b ∷ bs in
    let n = copy_len offset (length all) in
    let left = length-drop n all in
    elim (get_or_fill_lem s (offset / min_page_size) v (omega arith)) [
      | inr run ↦ (s, v, refl, inr (rw (write_loop, ◌>>=◌, run) refl, λ x out. refl))
      | inl (p, s1, run, grows, here) ↦
          let rest =
            write_loop rounds (offset + n) (drop n all) (stored s1 offset p (take n all)) in
          let valid = stored-IsValid s1 offset p (take n all) grows.valid in
          subst (Written s offset all) (sym (write_loop_step rounds offset b bs s s1 p run)) (
            piece_then_rest s s1 offset p n all grows here (omega arith) (omega arith) rest (
              write_loop_lem rounds (offset + n) (drop n all) (stored s1 offset p (take n all))
                valid (omega arith) (omega (arith, grows.size))))
    ]

-- The end of a read: the bytes of the area, or there is no memory; the bytes stay what they were.
abbrev pub Fetched : State → ℕ → ℕ → Exec (Result (List ℕ) ErrorCode × State) → Type 0
Fetched s offset n run =
    (s' : State) × Grows s s'
    × ((run ≡ done (ok (load (content s) offset n), s')) ⊎ (run ≡ done (err out_of_memory, s')))

unchanged : (s : State) → IsValid s → Grows s s
unchanged s v = record { valid = v; size = refl; same = λ x. refl }

pub read_loop_step :
    (rounds offset k : ℕ) (s s1 : State) (p : ℕ)
    → get_or_fill (offset / min_page_size) s ≡ done (ok p, s1)
    → let n = copy_len offset (suc k) in
      read_loop (suc rounds) offset (suc k) s
      ≡ (read_loop rounds (offset + n) (suc k - n) >>= λ rest.
            return (load s1.ram (paddr2vaddr p + offset % min_page_size) n ++ rest))
          s1
unfolding read_loop
read_loop_step rounds offset k s s1 p e = rw (read_loop, ◌>>=◌, e) refl

-- A chunk within a page.
fetched_chunk :
    (s s1 : State) (offset p n : ℕ)
    → Grows s s1
    → get_elem? s1.pages (offset / min_page_size) ≡ some (some p)
    → offset % min_page_size + n ≤ min_page_size
    → load s1.ram (paddr2vaddr p + offset % min_page_size) n ≡ load (content s) offset n
fetched_chunk s s1 offset p n grows here fits =
    load-cong n s1.ram (content s) (paddr2vaddr p + offset % min_page_size) offset λ i lt.
      ap s1.ram (omega arith)
      ∙ sym (page_byte s1 (offset / min_page_size) p (offset + i) here (omega arith))
      ∙ grows.same (offset + i)

further : {s s1 s2 : State} → Grows s s1 → Grows s1 s2 → Grows s s2
further g h = record { valid = h.valid; size = h.size ∙ g.size; same = λ x. h.same x ∙ g.same x }

empty_range : (s : State) (offset : ℕ) → IsValid s → Fetched s offset 0 (return [] s)
unfolding load
empty_range s offset v = (s, unchanged s v, inl refl)

fetch_rest :
    (s s1 : State) (offset n m total : ℕ) (piece : List ℕ) (rest : Act (List ℕ))
    → n + m ≡ total
    → Grows s s1
    → piece ≡ load (content s) offset n
    → Fetched s1 (offset + n) m (rest s1)
    → Fetched s offset total ((rest >>= λ bytes. return (piece ++ bytes)) s1)
fetch_rest s s1 offset n m total piece rest whole grows e (s2, more, inl run) =
    let tail : load (content s1) (offset + n) m ≡ load (content s) (offset + n) m =
      load-cong m (content s1) (content s) (offset + n) (offset + n)
        (λ i lt. grows.same (offset + n + i)) in
    (
      s2,
      further grows more,
      inl (
          rw (◌>>=◌, run)
            (ap (λ (bytes : List ℕ). done (ok bytes, s2))
              (ap₂ (λ a b. a ++ b) e tail
                ∙ load-append n (content s) offset m
                ∙ ap (load (content s) offset) whole))),
    )
fetch_rest s s1 offset n m total piece rest whole grows e (s2, more, inr run) =
    (s2, further grows more, inr (rw (◌>>=◌, run) refl))

pub read_loop_lem :
    (rounds offset n : ℕ) (s : State)
    → IsValid s
    → n ≤ rounds
    → offset + n ≤ min_page_size * length s.pages
    → Fetched s offset n (read_loop rounds offset n s)
unfolding read_loop
read_loop_lem zero offset zero s v enough inside = empty_range s offset v
read_loop_lem zero offset (suc k) s v enough inside = absurd (omega arith)
read_loop_lem (suc rounds) offset zero s v enough inside = empty_range s offset v
read_loop_lem (suc rounds) offset (suc k) s v enough inside =
    let n = copy_len offset (suc k) in
    elim (get_or_fill_lem s (offset / min_page_size) v (omega arith)) [
      | inr run ↦ (s, unchanged s v, inr (rw (read_loop, ◌>>=◌, run) refl))
      | inl (p, s1, run, grows, here) ↦
          let rest =
            read_loop_lem rounds (offset + n) (suc k - n) s1 grows.valid (omega arith)
              (omega (arith, grows.size)) in
          let joined =
            fetch_rest s s1 offset n (suc k - n) (suc k)
              (load s1.ram (paddr2vaddr p + offset % min_page_size) n)
              (read_loop rounds (offset + n) (suc k - n)) (omega arith) grows
              (fetched_chunk s s1 offset p n grows here (omega arith)) rest in
          subst (Fetched s offset (suc k)) (sym (read_loop_step rounds offset k s s1 p run)) joined
    ]

-- For an area of whole pages in a valid state: a write whose end is past the length (or no `usize`) is refused and
-- changes nothing; any other puts the bytes in place, or reports that there is no memory; the bytes outside
-- the range written stay what they were, and the state stays valid.
pub write_lem :
    (s : State) (len offset : ℕ) (bytes : List ℕ)
    → IsValid s
    → len ≡ min_page_size * length s.pages
    → IsUsize len
    → ((len < offset + length bytes) × (write len offset bytes s ≡ done (err out_of_bounds, s)))
      ⊎ ((offset + length bytes ≤ len) × Written s offset bytes (write len offset bytes s))
unfolding write
write_lem s len offset bytes v pages small = elim (Bool-cases (ltb len (offset + length bytes))) [
  | inl over ↦ inl (ground arith, ground arith)
  | inr inside ↦
      let room : offset + length bytes ≤ len = ground arith in
      let fits : ltb (offset + length bytes) usize_mod ≡ true = ground arith in
      inr (
        room,
        rw (write, fits, inside)
            (write_loop_lem (length bytes) offset bytes s v (omega arith) (omega arith)),
      )
]

-- The same of a read: it gives the bytes of the range, and no byte of the area changes.
pub read_lem :
    (s : State) (len offset n : ℕ)
    → IsValid s
    → len ≡ min_page_size * length s.pages
    → IsUsize len
    → ((len < offset + n) × (read len offset n s ≡ done (err out_of_bounds, s)))
      ⊎ ((offset + n ≤ len) × Fetched s offset n (read len offset n s))
unfolding read
read_lem s len offset n v pages small = elim (Bool-cases (ltb len (offset + n))) [
  | inl over ↦ inl (ground arith, ground arith)
  | inr inside ↦
      let room : offset + n ≤ len = ground arith in
      let fits : ltb (offset + n) usize_mod ≡ true = ground arith in
      inr (room, rw (read, fits, inside) (read_loop_lem n offset n s v (omega arith) (omega arith)))
]
