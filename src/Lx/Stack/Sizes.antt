-- ===== src/Lx/Stack/Sizes.antt =====
-- What `estimate_stack_size` of servers/lx/src/elf.rs computes.
use ftl.Base.{
  ℕ, ◌+◌, ◌-◌, ◌*◌, ◌≡◌, ◌∙◌, ap, arith, Bool, true, false, List, [], ◌∷◌, length, length-append,
  All, ltb, if◌then◌else◌, Bool-cases, inl, inr,
}
use ftl.Base.Word.{IsUsize, add-done, sub-done}
use ftl.Base.Fallible.{return, fail}
use ftl.Lx.Stack.{
  Layout, stack_base, stack_size, ends_with_nul, add_strings, vectors_size, place_stack,
  estimate_stack_size, stack_too_small, not_nul_terminated,
}
use ftl.Lx.Stack.Writes.{concat, end_16, align_up_16}

-- Every string ends with a zero byte.
abbrev pub AllNul : List (List ℕ) → Type 0
AllNul ss = All (λ s. ends_with_nul s ≡ true) ss

pub add_strings_lem :
    (ss : List (List ℕ)) (offset : ℕ)
    → AllNul ss
    → IsUsize (offset + length (concat ss))
    → add_strings offset ss ≡ return (offset + length (concat ss))
unfolding add_strings concat
add_strings_lem [] offset nul small = ap return (omega arith)
add_strings_lem (s ∷ ss) offset nul small =
    let size = length-append s (concat ss) in
    rw (add_strings, nul.0, add-done offset (length s) (omega arith))
      (add_strings_lem ss (offset + length s) nul.1 (omega arith) ∙ ap return (omega arith))

-- The bytes of the pointers and of the auxiliary vector.
abbrev pub vector_bytes : ℕ → ℕ → ℕ → ℕ
vector_bytes argc envc auxv_count = 8 + 8 * argc + 8 + 8 * envc + 8 + 16 * auxv_count

pub vectors_size_lem :
    (argc envc auxv_count : ℕ)
    → IsUsize (vector_bytes argc envc auxv_count)
    → vectors_size argc envc auxv_count ≡ return (vector_bytes argc envc auxv_count)
unfolding vectors_size
vectors_size_lem argc envc auxv_count small = ground arith

-- Where things stand when everything fits.
abbrev pub layout_of : ℕ → ℕ → ℕ → ℕ → Layout
layout_of head argv_bytes env_bytes random_len =
    let sp = stack_base + stack_size - end_16 (head + argv_bytes + env_bytes + random_len) in
    record {
      sp = sp;
      argv_base = sp + head;
      env_base = sp + (head + argv_bytes);
      random_uaddr = sp + (head + argv_bytes + env_bytes);
    }

pub place_stack_outcome :
    (head argv_bytes env_bytes random_len : ℕ)
    → place_stack
        (end_16 (head + argv_bytes + env_bytes + random_len))
        head
        (head + argv_bytes)
        (head + argv_bytes + env_bytes)
      ≡ (if ltb stack_size (end_16 (head + argv_bytes + env_bytes + random_len))
          then fail stack_too_small
          else return (layout_of head argv_bytes env_bytes random_len))
unfolding place_stack
place_stack_outcome head argv_bytes env_bytes random_len = ground arith

module _ (argv env : List (List ℕ)) (random_len auxv_count : ℕ) where
  abbrev pub body_bytes : ℕ
  body_bytes =
      vector_bytes (length argv) (length env) auxv_count
      + length (concat argv)
      + length (concat env)
      + random_len

  module _ (argv_nul : AllNul argv) (env_nul : AllNul env) (small : IsUsize (body_bytes + 16)) where
    -- All but the last part.
    pub estimate_stack_size-place_stack :
        estimate_stack_size argv env random_len auxv_count
        ≡ place_stack
            (end_16 body_bytes)
            (vector_bytes (length argv) (length env) auxv_count)
            (vector_bytes (length argv) (length env) auxv_count + length (concat argv))
            (vector_bytes (length argv) (length env) auxv_count
              + length (concat argv)
              + length (concat env))
    unfolding estimate_stack_size
    estimate_stack_size-place_stack =
        let head = vector_bytes (length argv) (length env) auxv_count in
        let pad = end_16 body_bytes - body_bytes in
        let total : body_bytes + pad ≡ end_16 body_bytes = omega arith in
        rw
          (
            vectors_size_lem (length argv) (length env) auxv_count (omega arith),
            add_strings_lem argv head argv_nul (omega arith),
            add_strings_lem env (head + length (concat argv)) env_nul (omega arith),
            add-done (head + length (concat argv) + length (concat env)) random_len (omega arith),
            align_up_16 body_bytes small,
            sub-done (end_16 body_bytes) body_bytes (omega arith),
            add-done body_bytes pad (omega arith),
          )
          (ap
            (λ t.
              place_stack t head (head + length (concat argv))
                (head + length (concat argv) + length (concat env)))
            total)

-- The same as a test.
abbrev pub all_nul : List (List ℕ) → Bool
all_nul [] = true
all_nul (s ∷ ss) = if ends_with_nul s then all_nul ss else false

pub all_nul-AllNul : (ss : List (List ℕ)) → all_nul ss ≡ true → AllNul ss
all_nul-AllNul [] e = tt
all_nul-AllNul (s ∷ ss) e = elim (Bool-cases (ends_with_nul s)) [
  | inl nul ↦ (nul, all_nul-AllNul ss (rw nul at e))
  | inr bad ↦ cc
]

-- A string without its zero byte is reported.
add_strings-not_nul_terminated :
    (ss : List (List ℕ)) (offset : ℕ)
    → all_nul ss ≡ false
    → IsUsize (offset + length (concat ss))
    → add_strings offset ss ≡ fail not_nul_terminated
unfolding add_strings concat
add_strings-not_nul_terminated [] offset e small = cc
add_strings-not_nul_terminated (s ∷ ss) offset e small = elim (Bool-cases (ends_with_nul s)) [
  | inl nul ↦
      let size = length-append s (concat ss) in
      rw (add_strings, nul, add-done offset (length s) (omega arith))
        (add_strings-not_nul_terminated ss (offset + length s) (rw nul at e) (omega arith))
  | inr bad ↦ rw (add_strings, bad)
]

module _ (argv env : List (List ℕ)) (random_len auxv_count : ℕ)
    (small : IsUsize (body_bytes argv env random_len auxv_count + 16)) where
  abbrev head : ℕ
  head = vector_bytes (length argv) (length env) auxv_count

  estimate_stack_size-bad_argv :
      all_nul argv ≡ false
      → estimate_stack_size argv env random_len auxv_count ≡ fail not_nul_terminated
  unfolding estimate_stack_size
  estimate_stack_size-bad_argv bad = rw (
    vectors_size_lem (length argv) (length env) auxv_count (omega arith),
    add_strings-not_nul_terminated argv head bad (omega arith),
  )

  estimate_stack_size-bad_env :
      all_nul argv ≡ true
      → all_nul env ≡ false
      → estimate_stack_size argv env random_len auxv_count ≡ fail not_nul_terminated
  unfolding estimate_stack_size
  estimate_stack_size-bad_env nul bad = rw (
    vectors_size_lem (length argv) (length env) auxv_count (omega arith),
    add_strings_lem argv head (all_nul-AllNul argv nul) (omega arith),
    add_strings-not_nul_terminated env (head + length (concat argv)) bad (omega arith),
  )

-- The layout of the stack, or the reason why there is none: `estimate_stack_size` on every branch,
-- for sizes whose sum is a `usize`.
pub estimate_stack_size_outcome :
    (argv env : List (List ℕ)) (random_len auxv_count : ℕ)
    → IsUsize (body_bytes argv env random_len auxv_count + 16)
    → estimate_stack_size argv env random_len auxv_count ≡ (
        if all_nul argv
        then (if all_nul env
            then (if ltb stack_size (end_16 (body_bytes argv env random_len auxv_count))
                then fail stack_too_small
                else return (
                    layout_of
                      (vector_bytes (length argv) (length env) auxv_count)
                      (length (concat argv))
                      (length (concat env))
                      random_len))
            else fail not_nul_terminated)
        else fail not_nul_terminated)
estimate_stack_size_outcome argv env random_len auxv_count small =
    elim (Bool-cases (all_nul argv)) [
      | inl argv_nul ↦ elim (Bool-cases (all_nul env)) [
        | inl env_nul ↦
            rw
              (
                argv_nul,
                env_nul,
                estimate_stack_size-place_stack argv env random_len auxv_count
                    (all_nul-AllNul argv argv_nul) (all_nul-AllNul env env_nul) small,
              )
              (place_stack_outcome (vector_bytes (length argv) (length env) auxv_count)
                (length (concat argv)) (length (concat env)) random_len)
        | inr env_bad ↦
            rw (argv_nul, env_bad)
              (estimate_stack_size-bad_env argv env random_len auxv_count small argv_nul env_bad)
      ]
      | inr argv_bad ↦
          rw argv_bad (estimate_stack_size-bad_argv argv env random_len auxv_count small argv_bad)
    ]
