-- ===== src/ArrayVec/Slots.antt =====
-- The slots of a vector that holds given values: reads and writes on them.
use ftl.Base.{
  ℕ, zero, suc, ◌+◌, ◌≤◌, ◌≡◌, refl, ap, arith, lt→ltb, Option, some, List, [], ◌∷◌, ◌++◌, map,
  length, get_elem?, set, length-append, length-map, done, ◌∙◌,
}
use mathlib.Core.List.{append_assoc, append-nil, map-append}
use ftl.ArrayVec.{ArrayVec, read_slot, write_slot, read_slots, write_all}

-- The vector of `N` slots holds the values `xs`, the oldest first.
pub record Holds {ℓ} {A : Type ℓ} (N : ℕ) (v : ArrayVec A) (xs : List A) : Type ℓ where
  pub free : List (Option A)
  pub slots : v.elems ≡ map some xs ++ free
  pub count : v.len ≡ length xs
  pub size : length xs + length free ≡ N

module _ {ℓ} {A : Type ℓ} where
  pub length-slots :
      (xs : List A) (free : List (Option A))
      → length (map {B = Option A} some xs ++ free) ≡ length xs + length free
  length-slots xs free = rw (length-append (map some xs) free, length-map {B = Option A} xs some)

  pub read_slots-slots :
      (xs : List A) (free : List (Option A))
      → read_slots (map some xs ++ free) (length xs) ≡ done xs
  unfolding read_slots
  read_slots-slots [] free = refl
  read_slots-slots (x ∷ xs) free = rw (read_slots-slots xs free)

  pub read_slot-slots :
      (xs : List A) (free : List (Option A)) (i : ℕ) (x : A)
      → get_elem? xs i ≡ some x
      → read_slot (map some xs ++ free) i ≡ done x
  unfolding read_slot
  read_slot-slots [] free i x e = cc
  read_slot-slots (y ∷ ys) free zero x e = ground arith
  read_slot-slots (y ∷ ys) free (suc i) x e = read_slot-slots ys free i x e

  set-slots :
      (xs : List A) (slot : Option A) (free : List (Option A)) (x : A)
      → set (map some xs ++ slot ∷ free) (length xs) (some x) ≡ map some (xs ++ x ∷ []) ++ free
  set-slots [] slot free x = refl
  set-slots (y ∷ ys) slot free x = ap (◌∷◌ (some y)) (set-slots ys slot free x)

  pub write_slot-slots :
      (xs : List A) (slot : Option A) (free : List (Option A)) (x : A)
      → write_slot (map some xs ++ slot ∷ free) (length xs) x
        ≡ done (map some (xs ++ x ∷ []) ++ free)
  unfolding write_slot
  write_slot-slots xs slot free x =
      rw
        (lt→ltb (length xs) (length (map {B = Option A} some xs ++ slot ∷ free))
          (omega (arith, length-slots xs (slot ∷ free))))
        (ap done (set-slots xs slot free x))

  pub write_all-slots :
      (ys xs : List A) (free : List (Option A))
      → length ys ≤ length free
      → (rest : List (Option A)) × (write_all (map some xs ++ free) (length xs) ys
          ≡ done (map some (xs ++ ys) ++ rest))
        × (length ys + length rest ≡ length free)
  unfolding write_all
  write_all-slots [] xs free h = (free, simp append-nil, omega arith)
  write_all-slots (y ∷ ys) xs [] h = absurd (omega arith)
  write_all-slots (y ∷ ys) xs (slot ∷ free) h =
      let (rest, e, n) = write_all-slots ys (xs ++ y ∷ []) free (omega arith) in
      (
        rest,
        ground (
          arith,
          write_slot-slots xs slot free y,
          length-append xs (y ∷ []),
          append_assoc xs (y ∷ []) ys,
        ),
        omega arith,
      )

  -- The slot before the last value.
  pub Holds-take :
      {N : ℕ} {v : ArrayVec A} (xs : List A) (x : A)
      → Holds N v (xs ++ x ∷ [])
      → Holds N (record v { len = length xs }) xs
  Holds-take {N} {v} xs x h = record {
    free = some x ∷ h.free;
    slots = h.slots ∙ simp (map-append, append_assoc);
    count = refl;
    size = omega (arith, length-append xs (x ∷ []), h.size);
  }
