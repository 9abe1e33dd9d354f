-- ===== src/ArrayVec.antt =====
-- libs/rust/ftl_arrayvec/src/array_vec.rs: a vector in a fixed array of `N` slots. A slot is `none`
-- while it is uninitialised; to read such a slot as a value is undefined behaviour in Rust and a
-- panic here, so that what does not panic reads no such slot.
pub mod Slots
pub mod Bounded
pub mod Refine
pub mod ArrayString
use ftl.Base.{
  ℕ, zero, suc, ◌+◌, ltb, leb, ◌==◌, if◌then◌else◌, Bool, Option, none, some, List, [], ◌∷◌, length,
  get_elem?, set, replicate, Exec, done, panic, ◌>>=◌, Result, ok, err, unwrap,
}
use ftl.Base.Word.{add, sub}

pub record ArrayVec {ℓ} (A : Type ℓ) : Type ℓ where
  pub elems : List (Option A)
  pub len : ℕ

pub data CapacityError : Type 0 where
  capacity_error : CapacityError

module _ {ℓ} {A : Type ℓ} where
  -- `[MaybeUninit::uninit(); N]`
  pub new : ℕ → ArrayVec A
  new N = record { elems = replicate N none; len = 0 }

  pub is_empty : ArrayVec A → Exec Bool
  is_empty v = done (v.len == 0)

  -- `self.elems[index].assume_init_read()`
  pub read_slot : List (Option A) → ℕ → Exec A
  read_slot elems i = elim (get_elem? elems i) [ none ↦ panic | some slot ↦ unwrap slot ]

  -- `self.elems[index].write(value)`
  pub write_slot : List (Option A) → ℕ → A → Exec (List (Option A))
  write_slot elems i x = if ltb i (length elems) then done (set elems i (some x)) else panic

  pub get : ArrayVec A → ℕ → Exec (Option A)
  unfolding read_slot
  get v index =
      if leb v.len index then done none else (do x ← read_slot v.elems index; done (some x))

  -- The first `n` slots as values.
  pub read_slots : List (Option A) → ℕ → Exec (List A)
  read_slots elems zero = done []
  read_slots [] (suc n) = panic
  read_slots (e ∷ es) (suc n) = do x ← unwrap e; xs ← read_slots es n; done (x ∷ xs)

  pub as_slice : ArrayVec A → Exec (List A)
  unfolding read_slots
  as_slice v = read_slots v.elems v.len

  pub try_push : ℕ → ArrayVec A → A → Exec (Result (Unit {0}) A × ArrayVec A)
  unfolding write_slot
  try_push N v value = if v.len == N then done (err value, v) else (do
    elems ← write_slot v.elems v.len value
    len ← add v.len 1
    done (ok tt, record { elems = elems; len = len }))

  -- The value is moved out; the slot keeps its bits.
  pub pop : ArrayVec A → Exec (Option A × ArrayVec A)
  unfolding read_slot
  pop v =
      if v.len == 0
      then done (none, v)
      else (do len ← sub v.len 1; x ← read_slot v.elems len; done (some x, record v { len = len }))

  -- The result is what `drop_in_place` ends, in order. `Drop` is this function too.
  pub clear : ArrayVec A → Exec (List A × ArrayVec A)
  unfolding as_slice
  clear v = do dropped ← as_slice v; done (dropped, record v { len = 0 })

  -- The loop of `extend_from_slice_unchecked`, at slot `at`.
  pub write_all : List (Option A) → ℕ → List A → Exec (List (Option A))
  write_all elems at [] = done elems
  write_all elems at (x ∷ xs) = do elems' ← write_slot elems at x; write_all elems' (at + 1) xs

  pub extend_from_slice_unchecked : ArrayVec A → List A → Exec (ArrayVec A)
  unfolding write_all
  extend_from_slice_unchecked v values = do
    elems ← write_all v.elems v.len values
    len ← add v.len (length values)
    done (record { elems = elems; len = len })

  pub try_extend_from_slice :
      ℕ → ArrayVec A → List A → Exec (Result (Unit {0}) CapacityError × ArrayVec A)
  unfolding extend_from_slice_unchecked
  try_extend_from_slice N v values = do
    total ← add v.len (length values)
    if ltb N total
        then done (err capacity_error, v)
        else (do v' ← extend_from_slice_unchecked v values; done (ok tt, v'))
