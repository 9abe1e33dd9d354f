-- ===== src/VmSpace/Bytes.antt =====
-- `read_bytes` of kernel/src/vmspace.rs from the start: the mapping that the search finds, the reads that succeed and
-- the reads that run off the end.
use ftl.Base.{
  ℕ, suc, ◌+◌, ◌-◌, ◌≤◌, ◌<◌, ◌≡◌, ◌∙◌, ap, refl, sym, subst, arith, inl, inr, ltb, leb, Bool, true,
  false, Bool-cases, Option, some, List, [], ◌∷◌, ◌++◌, length, drop, min, All,
}
use ftl.Base.Word.{IsUsize, usize_mod}
use ftl.Base.Ram.{load, load-cong}
use ftl.Api.ErrorCode.{out_of_memory}
use ftl.VmSpace.{Backend, Mapping, partition_point, read_mappings, read_bytes}
use ftl.VmSpace.Mapped.{find-below, find-head, find-tail, within, find, IsSpace}
use ftl.VmSpace.Read.{
  Areas, memory, byte_of, Fit, Fetched, Covered, empty_range, fetch_rest, read_mappings_step,
  read_mappings_error, read_mappings-nil, read_mappings-Covered,
}

module _ (b : Backend) where
  -- The test of the search.
  abbrev starts_by : ℕ → Mapping b → Bool
  starts_by uaddr m = leb m.start uaddr

  partition_point-none :
      (ms : List (Mapping b)) (uaddr y : ℕ)
      → All (λ m. y ≤ m.start) ms
      → uaddr < y
      → partition_point b (starts_by uaddr) ms ≡ 0
  unfolding partition_point
  partition_point-none [] uaddr y all h = refl
  partition_point-none (m ∷ ms) uaddr y all h =
      let e : leb m.start uaddr ≡ false = ground (arith, all.0) in rw e

  partition_point-cons :
      (m : Mapping b) (ms : List (Mapping b)) (uaddr : ℕ)
      → m.start ≤ uaddr
      → partition_point b (starts_by uaddr) (m ∷ ms) ≡ suc (partition_point b (starts_by uaddr) ms)
  unfolding partition_point
  partition_point-cons m ms uaddr h = let e : leb m.start uaddr ≡ true = ground arith in rw e

  partition_point-nil : (uaddr : ℕ) → partition_point b (starts_by uaddr) [] ≡ 0
  unfolding partition_point
  partition_point-nil uaddr = refl

  -- The mapping from which the loop of `read_bytes` starts.
  record Starts (ms : List (Mapping b)) (uaddr : ℕ) : Type 0 where
    index : ℕ
    first : Mapping b
    rest : List (Mapping b)
    point : partition_point b (starts_by uaddr) ms ≡ suc index
    suffix : drop index ms ≡ first ∷ rest
    inside : within b first uaddr ≡ true
    space : IsSpace b (first ∷ rest)
    found : (x : ℕ) → uaddr ≤ x → find b (first ∷ rest) x ≡ find b ms x
    fits :
        All (λ m. m.end ≡ m.start + b.len m.vmarea) ms
        → All (λ m. m.end ≡ m.start + b.len m.vmarea) (first ∷ rest)

  starts :
      (ms : List (Mapping b)) (uaddr : ℕ) (m : Mapping b)
      → IsSpace b ms
      → find b ms uaddr ≡ some m
      → Starts ms uaddr
  unfolding find
  starts [] uaddr m space e = absurd (cc)
  starts (n ∷ ns) uaddr m space e = elim (Bool-cases (within b n uaddr)) [
    | inl inside ↦ record {
      index = 0;
      first = n;
      rest = ns;
      point =
          partition_point-cons n ns uaddr (ground arith)
          ∙ ap suc (partition_point-none ns uaddr n.end space.1.0 (ground arith));
      suffix = refl;
      inside = inside;
      space = space;
      found = λ x h. refl;
      fits = λ f. f;
    }
    | inr outside ↦
        let e' : find b ns uaddr ≡ some m = rw (find, outside) at e in
        let s = starts ns uaddr m (space.0.1, space.1.1) e' in
        let past : n.end ≤ uaddr = elim (Bool-cases (leb n.end uaddr)) [
          | inl h ↦ ground arith
          | inr h ↦ absurd (cc (find-below b ns uaddr n.end space.1.0 (ground arith)))
        ] in
        record {
          index = suc s.index;
          first = s.first;
          rest = s.rest;
          point = partition_point-cons n ns uaddr (omega (arith, space.0.0)) ∙ ap suc s.point;
          suffix = s.suffix;
          inside = s.inside;
          space = s.space;
          found = λ x h. s.found x h ∙ sym (find-tail b n ns x (omega arith));
          fits = λ f. s.fits f.1;
        }
  ]

  module _ (areas : Areas b) where
    -- If the areas are in a valid state and all bytes of a range are mapped, `read_bytes` gives them, or OUT_OF_MEMORY where an
    -- area finds no memory for a page; no byte changes, and the state is valid again.
    pub read_bytes-Covered :
        (ms : List (Mapping b)) (uaddr : ℕ) (buf : List ℕ) (s : b.Store)
        → areas.Valid s
        → IsSpace b ms
        → Fit b areas ms
        → Covered b areas ms uaddr (length buf)
        → IsUsize (uaddr + length buf)
        → Fetched b areas s
            (load (memory b areas ms s) uaddr (length buf))
            (read_bytes b ms uaddr buf s)
    unfolding read_bytes
    read_bytes-Covered ms uaddr [] s valid space fit cover small =
        empty_range b areas ms s uaddr valid
    read_bytes-Covered ms uaddr (x ∷ xs) s valid space fit cover small =
        let buf = x ∷ xs in
        let (m, e) = cover 0 (omega arith) in
        let place : uaddr + 0 ≡ uaddr = omega arith in
        let t = starts ms uaddr m space (rw place at e) in
        let sized : ltb (uaddr + length buf) usize_mod ≡ true = ground arith in
        let cover' = λ (i : ℕ) (lt : i < length buf).
          let (n, f) = cover i lt in
          let here : find b (t.first ∷ t.rest) (uaddr + i) ≡ some n =
            t.found (uaddr + i) (omega arith) ∙ f in
          let pair : (k : Mapping b) × (find b (t.first ∷ t.rest) (uaddr + i) ≡ some k) =
            (n, here) in
          pair in
        let same : load (memory b areas (t.first ∷ t.rest) s) uaddr (length buf)
            ≡ load (memory b areas ms s) uaddr (length buf) =
          load-cong (length buf) (memory b areas (t.first ∷ t.rest) s) (memory b areas ms s) uaddr
            uaddr
            (λ i lt.
              ap (λ (o : Option (Mapping b)). byte_of b areas s o (uaddr + i))
                (t.found (uaddr + i) (omega arith))) in
        let read =
          read_mappings-Covered b areas (t.first ∷ t.rest) uaddr buf s valid t.space (t.fits fit)
            (inr t.inside) cover' small in
        rw (read_bytes, sized, t.point, t.suffix)
          (subst
            (λ (bytes : List ℕ).
              Fetched b areas s bytes (read_mappings b (t.first ∷ t.rest) uaddr buf s))
            same read)

    -- A read that begins in the only mapping of a space and goes past its end does not fail with OUT_OF_BOUNDS. It
    -- reports success (or OUT_OF_MEMORY, where the area finds no memory for a page): the buffer has the bytes up to the end of
    -- the mapping, and what it had before from there on.
    pub read_bytes-past_end :
        (m : Mapping b) (uaddr : ℕ) (buf : List ℕ) (s : b.Store)
        → areas.Valid s
        → m.end ≡ m.start + b.len m.vmarea
        → within b m uaddr ≡ true
        → m.end < uaddr + length buf
        → IsUsize (uaddr + length buf)
        → Fetched b areas s
            (load (memory b areas (m ∷ []) s) uaddr (m.end - uaddr) ++ drop (m.end - uaddr) buf)
            (read_bytes b (m ∷ []) uaddr buf s)
    unfolding read_bytes
    read_bytes-past_end m uaddr [] s valid fit inside over small = absurd (ground arith)
    read_bytes-past_end m uaddr (x ∷ xs) s valid fit inside over small =
        let buf = x ∷ xs in
        let n = min (length buf) (m.end - uaddr) in
        let cut : n ≡ m.end - uaddr = ground arith in
        let sized : ltb (uaddr + length buf) usize_mod ≡ true = ground arith in
        let point = partition_point-cons m [] uaddr (ground arith) in
        let (s1, valid', same, reply) =
          areas.fetch m.vmarea (uaddr - m.start) n s valid (ground arith) in
        let chunk = load (areas.byte s m.vmarea) (uaddr - m.start) n in
        let whole : chunk ++ drop n buf ≡ load (memory b areas (m ∷ []) s) uaddr n ++ drop n buf =
          ap (λ (c : List ℕ). c ++ drop n buf)
            (load-cong n (areas.byte s m.vmarea) (memory b areas (m ∷ []) s) (uaddr - m.start) uaddr
              λ i lt.
                ap (areas.byte s m.vmarea) (ground arith)
                ∙ ap (λ (o : Option (Mapping b)). byte_of b areas s o (uaddr + i))
                    (sym (find-head b m [] (uaddr + i) (ground arith)))) in
        let started : read_bytes b (m ∷ []) uaddr buf s ≡ read_mappings b (m ∷ []) uaddr buf s =
          rw (read_bytes, sized, point, partition_point-nil uaddr) in
        subst
          (λ (k : ℕ).
            Fetched b areas s (load (memory b areas (m ∷ []) s) uaddr k ++ drop k buf)
              (read_bytes b (m ∷ []) uaddr buf s))
          cut
          (rw started (elim reply [
            | inr run ↦ (
              s1,
              valid',
              same,
              inr (read_mappings_error b areas m [] uaddr x xs out_of_memory s s1 inside run),
            )
            | inl run ↦
                subst (Fetched b areas s (load (memory b areas (m ∷ []) s) uaddr n ++ drop n buf))
                  (sym (
                    read_mappings_step b areas m [] uaddr x xs chunk s s1 inside (omega arith) run))
                  (fetch_rest b areas s s1 chunk (drop n buf)
                    (load (memory b areas (m ∷ []) s) uaddr n ++ drop n buf)
                    (read_mappings b [] (uaddr + n) (drop n buf)) same whole
                    (
                      s1,
                      valid',
                      (λ area i. refl),
                      inl (read_mappings-nil b areas (uaddr + n) (drop n buf) s1),
                    ))
          ]))
