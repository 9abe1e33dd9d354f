-- ===== src/VmArea/Window.antt =====
-- The pages of one area among those of all areas (kernel/src/vmarea.rs): a call of an area does to all pages what it does to its
-- own, between pages that stay.
use ftl.Base.{
  ℕ, zero, suc, ◌+◌, ◌-◌, ◌*◌, ◌/◌, ◌%◌, ◌≤◌, ◌<◌, ◌≡◌, refl, sym, ap, ap₂, subst, ◌∙◌, arith, inl,
  inr, Option, none, some, List, [], ◌∷◌, ◌++◌, length, length-append, get_elem?, set,
  le_of_get_elem?, lt_of_get_elem?, Exec, done, panic, Result, ok, err,
}
use ftl.Base
use ftl.Base.Ram.{Ram, load}
use ftl.Api.ErrorCode.{ErrorCode, out_of_memory}
use ftl.Arch.Direct.{min_page_size, paddr2vaddr}
use ftl.Memory.Page.{PageAllocator, alloc, zeroed}
use ftl.VmArea.{State, Act, ◌>>=◌, return, fill, get_or_fill, copy_len, read_loop}
use ftl.VmArea.Fill.{IsValid, get_or_fill_lem}
use ftl.VmArea.Access.{read_loop_step}

module _ {A : Type 0} where
  get_elem?-within :
      (pre mid post : List A) (i k : ℕ)
      → k ≡ length pre + i
      → i < length mid
      → get_elem? (pre ++ (mid ++ post)) k ≡ get_elem? mid i
  get_elem?-within (x ∷ pre) mid post i zero e h = absurd (omega arith)
  get_elem?-within (x ∷ pre) mid post i (suc k) e h =
      get_elem?-within pre mid post i k (omega arith) h
  get_elem?-within [] [] post i k e h = absurd (omega arith)
  get_elem?-within [] (y ∷ mid) post zero zero e h = refl
  get_elem?-within [] (y ∷ mid) post zero (suc k) e h = absurd (omega arith)
  get_elem?-within [] (y ∷ mid) post (suc i) zero e h = absurd (omega arith)
  get_elem?-within [] (y ∷ mid) post (suc i) (suc k) e h =
      get_elem?-within [] mid post i k (omega arith) (omega arith)

  set-within :
      (pre mid post : List A) (i k : ℕ) (v : A)
      → k ≡ length pre + i
      → i < length mid
      → set (pre ++ (mid ++ post)) k v ≡ pre ++ (set mid i v ++ post)
  set-within (x ∷ pre) mid post i zero v e h = absurd (omega arith)
  set-within (x ∷ pre) mid post i (suc k) v e h =
      ap (◌∷◌ x) (set-within pre mid post i k v (omega arith) h)
  set-within [] [] post i k v e h = absurd (omega arith)
  set-within [] (y ∷ mid) post zero zero v e h = refl
  set-within [] (y ∷ mid) post zero (suc k) v e h = absurd (omega arith)
  set-within [] (y ∷ mid) post (suc i) zero v e h = absurd (omega arith)
  set-within [] (y ∷ mid) post (suc i) (suc k) v e h =
      ap (◌∷◌ y) (set-within [] mid post i k v (omega arith) (omega arith))

module _ (pre post : List (Option ℕ)) where
  abbrev pub embed : State → State
  embed s = record s { pages = pre ++ (s.pages ++ post) }

  abbrev pub embed_result :
      {A : Type 0} → Exec (Result A ErrorCode × State) → Exec (Result A ErrorCode × State)
  embed_result (done (r, s)) = done (r, embed s)
  embed_result panic = panic

  fill-embed :
      (s : State) (i k : ℕ) (r : Option ℕ × PageAllocator × Ram)
      → k ≡ length pre + i
      → i < length s.pages
      → fill (embed s) k r ≡ embed_result (fill s i r)
  unfolding fill
  fill-embed s i k (none, pool, ram) e h = refl
  fill-embed s i k (some p, pool, ram) e h =
      ap
        (λ (pages : List (Option ℕ)). done (ok p, record { pages = pages; pool = pool; ram = ram }))
        (set-within pre s.pages post i k (some p) e h)

  alloc-embed :
      (s : State) (i k : ℕ) (m : Exec (Option ℕ × PageAllocator × Ram))
      → k ≡ length pre + i
      → i < length s.pages
      → Base.◌>>=◌ m (λ r. fill (embed s) k r) ≡ embed_result (Base.◌>>=◌ m (λ r. fill s i r))
  alloc-embed s i k (done r) e h = fill-embed s i k r e h
  alloc-embed s i k panic e h = refl

  found-embed :
      (s : State) (i k : ℕ) (found : Option (Option ℕ))
      → get_elem? s.pages i ≡ found
      → k ≡ length pre + i
      → i < length s.pages
      → get_or_fill k (embed s) ≡ embed_result (get_or_fill i s)
  unfolding get_or_fill
  found-embed s i k none f e h = absurd (omega (arith, le_of_get_elem? s.pages i f))
  found-embed s i k (some (some p)) f e h =
      let g = get_elem?-within pre s.pages post i k e h ∙ f in rw (get_or_fill, g, f) refl
  found-embed s i k (some none) f e h =
      let g = get_elem?-within pre s.pages post i k e h ∙ f in
      rw (get_or_fill, g, f) (alloc-embed s i k (alloc s.pool s.ram min_page_size zeroed) e h)

  pub get_or_fill-embed :
      (s : State) (i k : ℕ)
      → k ≡ length pre + i
      → i < length s.pages
      → get_or_fill k (embed s) ≡ embed_result (get_or_fill i s)
  get_or_fill-embed s i k e h = found-embed s i k (get_elem? s.pages i) refl e h

  bind-embed :
      (m : Exec (Result (List ℕ) ErrorCode × State)) (chunk : List ℕ) (rest rest' : Act (List ℕ))
      (s : State)
      → rest s ≡ m
      → rest' (embed s) ≡ embed_result m
      → (rest' >>= λ bytes. return (chunk ++ bytes)) (embed s)
        ≡ embed_result ((rest >>= λ bytes. return (chunk ++ bytes)) s)
  bind-embed (done (ok a, s1)) chunk rest rest' s e e' = rw (◌>>=◌, e, e') refl
  bind-embed (done (err c, s1)) chunk rest rest' s e e' = rw (◌>>=◌, e, e') refl
  bind-embed panic chunk rest rest' s e e' = rw (◌>>=◌, e, e') refl

  pub IsValid-within : (s : State) → IsValid (embed s) → IsValid s
  IsValid-within s v =
      let there = λ (i p : ℕ) (e : get_elem? s.pages i ≡ some (some p)).
        get_elem?-within pre s.pages post i (length pre + i) refl (lt_of_get_elem? s.pages i e)
        ∙ e in
      record {
        aligned = λ i p e. v.aligned (length pre + i) p (there i p e);
        mapped = λ i p e. v.mapped (length pre + i) p (there i p e);
        own = λ i p x e. v.own (length pre + i) p x (there i p e);
        distinct = λ i j p e e'.
            let same =
              v.distinct (length pre + i) (length pre + j) p (there i p e) (there j p e') in
            omega arith;
        small = v.small;
        separate = v.separate;
        direct = v.direct;
      }

  read_loop_full :
      (rounds offset k : ℕ) (s s1 : State) (c : ErrorCode)
      → get_or_fill (offset / min_page_size) s ≡ done (err c, s1)
      → read_loop (suc rounds) offset (suc k) s ≡ done (err c, s1)
  unfolding read_loop
  read_loop_full rounds offset k s s1 c e = rw (read_loop, ◌>>=◌, e) refl

  pub read_loop-embed :
      (rounds o offset n : ℕ) (s : State)
      → IsValid s
      → o ≡ min_page_size * length pre + offset
      → offset + n ≤ min_page_size * length s.pages
      → read_loop rounds o n (embed s) ≡ embed_result (read_loop rounds offset n s)
  unfolding read_loop
  read_loop-embed zero o offset n s v e h = refl
  read_loop-embed (suc rounds) o offset zero s v e h = refl
  read_loop-embed (suc rounds) o offset (suc k) s v e h =
      let i = offset / min_page_size in
      let n = copy_len offset (suc k) in
      let rest_of = λ (m r : ℕ) (ram : Ram) (p : ℕ).
        read_loop rounds (o + m) (suc k - m) >>= λ bytes.
        return (load ram (paddr2vaddr p + r) m ++ bytes) in
      let same_n : copy_len o (suc k) ≡ n = omega arith in
      let same_r : o % min_page_size ≡ offset % min_page_size = omega arith in
      let filled = get_or_fill-embed s i (o / min_page_size) (omega arith) (omega arith) in
      elim (get_or_fill_lem s i v (omega arith)) [
        | inr run ↦
            read_loop_full rounds o k (embed s) (embed s) out_of_memory
              (filled ∙ ap embed_result run)
            ∙ sym (ap embed_result (read_loop_full rounds offset k s s out_of_memory run))
        | inl (p, s1, run, grows, here) ↦
            let chunk = load s1.ram (paddr2vaddr p + offset % min_page_size) n in
            let more =
              read_loop-embed rounds (o + n) (offset + n) (suc k - n) s1 grows.valid (omega arith)
                (omega (arith, grows.size)) in
            read_loop_step rounds o k (embed s) (embed s1) p (filled ∙ ap embed_result run)
            ∙ ap₂ (λ (m r : ℕ). rest_of m r s1.ram p (embed s1)) same_n same_r
            ∙ bind-embed (read_loop rounds (offset + n) (suc k - n) s1) chunk
                (read_loop rounds (offset + n) (suc k - n)) (read_loop rounds (o + n) (suc k - n))
                s1 refl more
            ∙ sym (ap embed_result (read_loop_step rounds offset k s s1 p run))
      ]
