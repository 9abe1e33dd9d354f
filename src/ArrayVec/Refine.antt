-- ===== src/ArrayVec/Refine.antt =====
-- A vector in its array behaves as the bounded list of its values, for every sequence of calls.
use ftl.Base.{
  ℕ, ◌+◌, ◌≤◌, ◌≡◌, refl, ap, arith, ltb, ◌==◌, Option, none, some, List, [], ◌∷◌, ◌++◌, map,
  length, get_elem?, length-append, All, Exec, done, ◌>>=◌, ok, inl, inr, Bool-cases, Option-cases,
  le_of_get_elem?, lt_of_get_elem?, get_elem?-append_length, subst, false, replicate,
  length-replicate,
}
use ftl.Base.Word.{IsUsize}
use ftl.ArrayVec.{ArrayVec, new, get, as_slice, try_push, pop, clear, try_extend_from_slice}
use ftl.ArrayVec.Slots.{
  Holds, Holds-take, length-slots, write_all-slots, read_slots-slots, read_slot-slots,
  write_slot-slots,
}
use ftl.ArrayVec.Bounded
use ftl.ArrayVec.Bounded.{Call, Reply, answer, answers, split_last, pop_back}

split_last-append {ℓ} :
    {A : Type ℓ} (x : A) (xs : List A) → x ∷ xs ≡ (split_last x xs).0 ++ (split_last x xs).1 ∷ []
unfolding split_last
split_last-append x [] = refl
split_last-append x (y ∷ ys) = ap (◌∷◌ x) (split_last-append y ys)

module _ {ℓ} {A : Type ℓ} where
  step : ℕ → ArrayVec A → Call A → Exec (Reply A × ArrayVec A)
  step N v (Bounded.push x) = do (r, v') ← try_push N v x; done (Bounded.pushed r, v')
  step N v Bounded.pop = do (r, v') ← pop v; done (Bounded.popped r, v')
  step N v (Bounded.get i) = do r ← get v i; done (Bounded.got r, v)
  step N v (Bounded.extend xs) = do
    (r, v') ← try_extend_from_slice N v xs
    done (Bounded.extended r, v')
  step N v Bounded.slice = do xs ← as_slice v; done (Bounded.sliced xs, v)
  step N v Bounded.clear = do (xs, v') ← clear v; done (Bounded.dropped xs, v')

  pub run : ℕ → ArrayVec A → List (Call A) → Exec (List (Reply A))
  run N v [] = done []
  run N v (c ∷ cs) = do (r, v') ← step N v c; rs ← run N v' cs; done (r ∷ rs)

  -- The length of a slice and the capacity add up to a `usize`.
  abbrev pub IsSmall : ℕ → Call A → Type 0
  IsSmall N (Bounded.extend xs) = IsUsize (N + length xs)
  IsSmall N (Bounded.push x) = Unit
  IsSmall N Bounded.pop = Unit
  IsSmall N (Bounded.get i) = Unit
  IsSmall N Bounded.slice = Unit
  IsSmall N Bounded.clear = Unit

  -- The outcome of a call on a vector that holds `xs`.
  abbrev Agrees : ℕ → Exec (Reply A × ArrayVec A) → Reply A × List A → Type ℓ
  Agrees N m (r, ys) = (v : ArrayVec A) × (m ≡ done (r, v)) × Holds N v ys

  new-Holds : (N : ℕ) → Holds {A = A} N (new N) []
  unfolding new
  new-Holds N = record {
    free = replicate N none;
    slots = refl;
    count = refl;
    size = omega (arith, length-replicate {A = Option A} N none);
  }

  module _ (N : ℕ) (small : IsUsize N) (v : ArrayVec A) (xs : List A) where
    push_free :
        (x : A) (free : List (Option A))
        → v.elems ≡ map some xs ++ free
        → v.len ≡ length xs
        → length xs + length free ≡ N
        → (length xs == N) ≡ false
        → Agrees N (step N v (Bounded.push x)) (Bounded.pushed (ok tt), xs ++ x ∷ [])
    unfolding step try_push
    push_free x [] slots count size room = absurd (ground arith)
    push_free x (slot ∷ free) slots count size room = (
      record { elems = map some (xs ++ x ∷ []) ++ free; len = length xs + 1 },
      ground (arith, write_slot-slots xs slot free x),
      record {
        free = free;
        slots = refl;
        count = omega (arith, length-append xs (x ∷ []));
        size = omega (arith, length-append xs (x ∷ []));
      },
    )

    push-Agrees :
        (x : A) → Holds N v xs → Agrees N (step N v (Bounded.push x)) (answer N xs (Bounded.push x))
    unfolding step try_push answer
    push-Agrees x h = elim (Bool-cases (length xs == N)) [
      | inl full ↦ rw full (v, ground arith, h)
      | inr room ↦ rw room (push_free x h.free h.slots h.count h.size room)
    ]

    extend_fits :
        (ys : List A)
        → Holds N v xs
        → length xs + length ys ≤ N
        → Agrees N (step N v (Bounded.extend ys)) (Bounded.extended (ok tt), xs ++ ys)
    unfolding step try_extend_from_slice
    extend_fits ys h room =
        let (rest, e, n) = write_all-slots ys xs h.free (omega (arith, h.size)) in
        (
          record { elems = map some (xs ++ ys) ++ rest; len = length xs + length ys },
          ground (arith, h.slots, h.count),
          record {
            free = rest;
            slots = refl;
            count = omega (arith, length-append xs ys);
            size = omega (arith, length-append xs ys, h.size);
          },
        )

    extend-Agrees :
        (ys : List A)
        → IsUsize (N + length ys)
        → Holds N v xs
        → Agrees N (step N v (Bounded.extend ys)) (answer N xs (Bounded.extend ys))
    unfolding step try_extend_from_slice answer
    extend-Agrees ys fits h = elim (Bool-cases (ltb N (length xs + length ys))) [
      | inl over ↦ rw over (v, ground (arith, h.count, h.size), h)
      | inr room ↦ rw room (extend_fits ys h (ground arith))
    ]

    get-Agrees :
        (i : ℕ) → Holds N v xs → Agrees N (step N v (Bounded.get i)) (answer N xs (Bounded.get i))
    unfolding step get answer
    get-Agrees i h = elim (Option-cases (get_elem? xs i)) [
      | inl e ↦ (v, ground (arith, le_of_get_elem? xs i e, h.count), h)
      | inr (x, e) ↦ (
        v,
        ground (arith, lt_of_get_elem? xs i e, h.count, h.slots, read_slot-slots xs h.free i x e),
        h,
      )
    ]

    pop-some :
        (init : List A) (last : A)
        → xs ≡ init ++ last ∷ []
        → Holds N v xs
        → Agrees N (step N v Bounded.pop) (Bounded.popped (some last), init)
    unfolding step pop
    pop-some init last e h =
        let h' : Holds N v (init ++ last ∷ []) = subst (Holds N v) e h in
        (
          record v { len = length init },
          ground (
            arith,
            h'.count,
            h'.slots,
            length-append init (last ∷ []),
            get_elem?-append_length init last [],
            read_slot-slots (init ++ last ∷ []) h'.free (length init) last,
          ),
          Holds-take init last h',
        )

    slice-Agrees : Holds N v xs → Agrees N (step N v Bounded.slice) (answer N xs Bounded.slice)
    unfolding step as_slice answer
    slice-Agrees h = (v, ground (arith, h.slots, h.count, read_slots-slots xs h.free), h)

    clear-Agrees : Holds N v xs → Agrees N (step N v Bounded.clear) (answer N xs Bounded.clear)
    unfolding step clear answer
    clear-Agrees h = (
      record v { len = 0 },
      ground (arith, h.slots, h.count, read_slots-slots xs h.free),
      record {
        free = v.elems;
        slots = refl;
        count = refl;
        size = omega (arith, h.size, ap length h.slots, length-slots xs h.free);
      },
    )

  pop-Agrees :
      (N : ℕ) (small : IsUsize N) (v : ArrayVec A) (xs : List A)
      → Holds N v xs
      → Agrees N (step N v Bounded.pop) (answer N xs Bounded.pop)
  unfolding step pop answer pop_back
  pop-Agrees N small v [] h = (v, ground (arith, h.count), h)
  pop-Agrees N small v (x ∷ xs) h =
      pop-some N small v (x ∷ xs) (split_last x xs).0 (split_last x xs).1 (split_last-append x xs) h

  step-Agrees :
      (N : ℕ) (small : IsUsize N) (v : ArrayVec A) (xs : List A) (c : Call A)
      → IsSmall N c
      → Holds N v xs
      → Agrees N (step N v c) (answer N xs c)
  step-Agrees N small v xs (Bounded.push x) s h = push-Agrees N small v xs x h
  step-Agrees N small v xs Bounded.pop s h = pop-Agrees N small v xs h
  step-Agrees N small v xs (Bounded.get i) s h = get-Agrees N small v xs i h
  step-Agrees N small v xs (Bounded.extend ys) s h = extend-Agrees N small v xs ys s h
  step-Agrees N small v xs Bounded.slice s h = slice-Agrees N small v xs h
  step-Agrees N small v xs Bounded.clear s h = clear-Agrees N small v xs h

  run_refines_from :
      (N : ℕ) (small : IsUsize N) (v : ArrayVec A) (xs : List A) (cs : List (Call A))
      → All (IsSmall N) cs
      → Holds N v xs
      → run N v cs ≡ done (answers N xs cs)
  unfolding run answers
  run_refines_from N small v xs [] s h = refl
  run_refines_from N small v xs (c ∷ cs) s h =
      let (v', e, h') = step-Agrees N small v xs c s.0 h in
      rw (e, ◌>>=◌) (rw (run_refines_from N small v' (answer N xs c).1 cs s.1 h', ◌>>=◌) refl)

  -- No sequence of calls on a fresh vector of capacity `N` (`try_push`, `pop`, `get`,
  -- `try_extend_from_slice`, `as_slice` and `clear`) panics or reads an uninitialised slot, and each
  -- call answers as the list of at most `N` values does, provided that the capacity and the length
  -- of each slice add up to a `usize`.
  pub run_refines :
      (N : ℕ) (cs : List (Call A))
      → IsUsize N
      → All (IsSmall N) cs
      → run N (new N) cs ≡ done (answers N [] cs)
  run_refines N cs small s = run_refines_from N small (new N) [] cs s (new-Holds N)
