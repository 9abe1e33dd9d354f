-- ===== src/Memory/Sort.antt =====
-- `bubble_sort` of kernel/src/memory.rs, on indices as written there. An index out of range panics.
use ftl.Base.{
  ℕ, zero, suc, ◌+◌, ◌-◌, if◌then◌else◌, Bool, true, false, List, [], ◌∷◌, length, Exec, done,
  panic, ◌>>=◌,
}
use ftl.Base.Word.{sub}
pub mod Sorted

module _ {ℓ} {A : Type ℓ} (f : A → A → Bool) where
  -- `if f(&slice[j], &slice[j + 1]) { slice.swap(j, j + 1); }`
  swap_head : A → List A → Exec (List A)
  swap_head x [] = panic
  swap_head x (y ∷ r) = done (if f x y then y ∷ x ∷ r else x ∷ y ∷ r)

  pub compare_swap : List A → ℕ → Exec (List A)
  unfolding swap_head
  compare_swap [] j = panic
  compare_swap (x ∷ r) zero = swap_head x r
  compare_swap (x ∷ r) (suc j) = do r' ← compare_swap r j; done (x ∷ r')

  -- `for j in j..j + n`
  pub inner_loop : ℕ → ℕ → List A → Exec (List A)
  inner_loop zero j slice = done slice
  inner_loop (suc n) j slice = do slice' ← compare_swap slice j; inner_loop n (j + 1) slice'

  -- `for i in i..i + n`, with the bound `len - i - 1` of the inner loop.
  pub outer_loop : ℕ → ℕ → ℕ → List A → Exec (List A)
  outer_loop len zero i slice = done slice
  outer_loop len (suc n) i slice = do
    a ← sub len i
    b ← sub a 1
    slice' ← inner_loop b 0 slice
    outer_loop len n (i + 1) slice'

  unfoldable pub bubble_sort : List A → Exec (List A)
  unfolding outer_loop inner_loop compare_swap
  bubble_sort slice = outer_loop (length slice) (length slice) 0 slice
