-- ===== src/ArrayVec/Bounded.antt =====
-- What a vector of capacity `N` promises: a list of at most `N` values that grows at its end.
use ftl.Base.{
  ℕ, ◌+◌, ltb, ◌==◌, if◌then◌else◌, Option, none, some, List, [], ◌∷◌, ◌++◌, length, get_elem?,
  Result, ok, err,
}
use ftl.ArrayVec.{CapacityError, capacity_error}

module _ {ℓ} (A : Type ℓ) where
  -- The calls of a client.
  pub data Call : Type ℓ where
    push : A → Call
    pop : Call
    get : ℕ → Call
    extend : List A → Call
    slice : Call
    clear : Call

  -- What they answer.
  pub data Reply : Type ℓ where
    pushed : Result (Unit {0}) A → Reply
    popped : Option A → Reply
    got : Option A → Reply
    extended : Result (Unit {0}) CapacityError → Reply
    sliced : List A → Reply
    dropped : List A → Reply

module _ {ℓ} {A : Type ℓ} where
  -- The values but the last, and the last.
  unfoldable pub split_last : A → List A → List A × A
  split_last x [] = ([], x)
  split_last x (y ∷ ys) = let (init, last) = split_last y ys in (x ∷ init, last)

  unfoldable pub pop_back : List A → Option A × List A
  pop_back [] = (none, [])
  pop_back (x ∷ xs) = let (init, last) = split_last x xs in (some last, init)

  unfoldable pub answer : ℕ → List A → Call A → Reply A × List A
  answer N xs (push x) =
      if length xs == N then (pushed (err x), xs) else (pushed (ok tt), xs ++ x ∷ [])
  answer N xs pop = let (x, rest) = pop_back xs in (popped x, rest)
  answer N xs (get i) = (got (get_elem? xs i), xs)
  answer N xs (extend ys) =
      if ltb N (length xs + length ys)
      then (extended (err capacity_error), xs)
      else (extended (ok tt), xs ++ ys)
  answer N xs slice = (sliced xs, xs)
  answer N xs clear = (dropped xs, [])

  unfoldable pub answers : ℕ → List A → List (Call A) → List (Reply A)
  answers N xs [] = []
  answers N xs (c ∷ cs) = let (r, ys) = answer N xs c in r ∷ answers N ys cs
