-- ===== src/Lx/Stack/Reading.antt =====
-- What a Linux program reads from the stack that servers/lx/src/elf.rs writes: the System V layout.
use ftl.Base.{
  ℕ, zero, suc, ◌+◌, ◌-◌, ◌*◌, ◌≡◌, ◌∙◌, subst, refl, arith, some, List, [], ◌∷◌, ◌++◌, length,
  get_elem?, get_elem?-append_left, get_elem?-append_right, All,
}
use mathlib.Core.List.{append_assoc}
use ftl.Base.Word.{IsUsize}
use ftl.Base.Bytes.{bytes_at, word_at, IsCursor, move, advance, regroup}
use ftl.Lx.Stack.{Layout}
use ftl.Lx.Stack.Writes.{words, concat, pointers, length-pointers, pairs, padding}
use ftl.Lx.Stack.Sizes.{vector_bytes}
use ftl.Lx.Stack.Image.{vector, image, body, length-vector, word_at-words, pointers-concat}

-- The `i`-th word from the stack pointer.
abbrev pub stack_word : List ℕ → ℕ → ℕ
stack_word bytes i = word_at bytes (8 * i) 8

-- What a program finds from its stack pointer `sp` on, `bytes`: `argc`, the pointers to the
-- arguments, a null, those to the environment, a null and the auxiliary vector.
pub record IsStartStack (sp : ℕ) (bytes : List ℕ) (argv env : List (List ℕ)) (auxv : List (ℕ × ℕ))
    : Type 0 where
  pub argc : stack_word bytes 0 ≡ length argv
  pub arg :
      (i : ℕ) (s : List ℕ)
      → get_elem? argv i ≡ some s
      → bytes_at bytes (stack_word bytes (1 + i) - sp) (length s) ≡ s
  pub argv_null : stack_word bytes (1 + length argv) ≡ 0
  pub var :
      (i : ℕ) (s : List ℕ)
      → get_elem? env i ≡ some s
      → bytes_at bytes (stack_word bytes (2 + length argv + i) - sp) (length s) ≡ s
  pub env_null : stack_word bytes (2 + length argv + length env) ≡ 0
  pub aux :
      (i tag value : ℕ)
      → get_elem? auxv i ≡ some (tag, value)
      → (stack_word bytes (3 + length argv + length env + 2 * i) ≡ tag)
        × (stack_word bytes (4 + length argv + length env + 2 * i) ≡ value)

abbrev pub AllUsize : List (ℕ × ℕ) → Type 0
AllUsize auxv = All (λ p. IsUsize p.0 × IsUsize p.1) auxv

All-get_elem? :
    (ps : List (ℕ × ℕ)) (i a b : ℕ)
    → AllUsize ps
    → get_elem? ps i ≡ some (a, b)
    → IsUsize a × IsUsize b
All-get_elem? [] i a b h e = cc
All-get_elem? (p ∷ ps) zero a b h e =
    let first : p.0 ≡ a = cc in let second : p.1 ≡ b = cc in (rw first at h.0.0, rw second at h.0.1)
All-get_elem? (p ∷ ps) (suc i) a b h e = All-get_elem? ps i a b h.1 e

get_elem?-pairs :
    (ps : List (ℕ × ℕ)) (i j : ℕ) {a b : ℕ}
    → j ≡ 2 * i
    → get_elem? ps i ≡ some (a, b)
    → (get_elem? (pairs ps) j ≡ some a) × (get_elem? (pairs ps) (suc j) ≡ some b)
unfolding pairs
get_elem?-pairs [] i j p e = cc
get_elem?-pairs ((c, d) ∷ ps) zero zero p e = (cc, cc)
get_elem?-pairs ((c, d) ∷ ps) zero (suc j) p e = absurd (omega arith)
get_elem?-pairs ((c, d) ∷ ps) (suc i) zero p e = absurd (omega arith)
get_elem?-pairs ((c, d) ∷ ps) (suc i) (suc zero) p e = absurd (omega arith)
get_elem?-pairs ((c, d) ∷ ps) (suc i) (suc (suc j)) p e = get_elem?-pairs ps i j (omega arith) e

module _ (layout : Layout) (auxv : List (ℕ × ℕ)) (argv env : List (List ℕ)) (random : List ℕ) where
  abbrev pub all : List ℕ
  all = image layout auxv argv env random

  abbrev pub pad : List ℕ
  pad = padding (length (body layout auxv argv env random))

  from_words :
      IsCursor all 0
        (words (vector layout auxv argv env) ++ ((concat argv ++ (concat env ++ random)) ++ pad))
  from_words = record {
    prefix = [];
    whole =
        append_assoc (words (vector layout auxv argv env)) (concat argv ++ (concat env ++ random))
          pad;
    place = refl;
  }

  from_argv :
      IsCursor all
        (vector_bytes (length argv) (length env) (length auxv))
        (concat argv ++ ((concat env ++ random) ++ pad))
  from_argv =
      let skipped =
        advance (words (vector layout auxv argv env))
          (vector_bytes (length argv) (length env) (length auxv)) from_words
          (length-vector layout auxv argv env) in
      regroup (concat argv) (concat env ++ random) pad (move skipped (omega arith))

  from_env :
      IsCursor all
        (vector_bytes (length argv) (length env) (length auxv) + length (concat argv))
        (concat env ++ (random ++ pad))
  from_env =
      regroup (concat env) random pad (advance (concat argv) (length (concat argv)) from_argv refl)

  pub from_random :
      IsCursor all
        (vector_bytes (length argv) (length env) (length auxv)
          + length (concat argv)
          + length (concat env))
        (random ++ pad)
  from_random = advance (concat env) (length (concat env)) from_env refl

  vector_word :
      (i : ℕ) {n : ℕ}
      → get_elem? (vector layout auxv argv env) i ≡ some n
      → IsUsize n
      → stack_word all i ≡ n
  vector_word i {n} e h =
      let place : 0 + 8 * i ≡ 8 * i = omega arith in
      subst (λ p. word_at all p 8 ≡ n) place
        (word_at-words (vector layout auxv argv env)
          ((concat argv ++ (concat env ++ random)) ++ pad) i from_words e h)

  -- Where the pointers and the pairs stand in the vector.
  abbrev args : List ℕ
  args = pointers layout.argv_base argv

  abbrev vars : List ℕ
  vars = pointers layout.env_base env

  after_argv :
      (i j : ℕ)
      → i ≡ 1 + length argv + j
      → get_elem? (vector layout auxv argv env) i ≡ get_elem? (0 ∷ (vars ++ (0 ∷ pairs auxv))) j
  after_argv i j e =
      let count = length-pointers layout.argv_base argv in
      get_elem?-append_right (length argv ∷ args) (0 ∷ (vars ++ (0 ∷ pairs auxv))) i j (omega arith)

  after_env :
      (i j : ℕ)
      → i ≡ 2 + length argv + length env + j
      → get_elem? (vector layout auxv argv env) i ≡ get_elem? (0 ∷ pairs auxv) j
  after_env i j e =
      let count = length-pointers layout.env_base env in
      after_argv i (suc (length env + j)) (omega arith)
      ∙ get_elem?-append_right vars (0 ∷ pairs auxv) (length env + j) j (omega arith)

  vector_arg :
      (i : ℕ) {p : ℕ}
      → get_elem? args i ≡ some p
      → get_elem? (vector layout auxv argv env) (1 + i) ≡ some p
  vector_arg i e =
      get_elem?-append_right (length argv ∷ []) (args ++ (0 ∷ (vars ++ (0 ∷ pairs auxv)))) (1 + i) i
        refl
      ∙ get_elem?-append_left args (0 ∷ (vars ++ (0 ∷ pairs auxv))) i e

  vector_var :
      (i : ℕ) {p : ℕ}
      → get_elem? vars i ≡ some p
      → get_elem? (vector layout auxv argv env) (2 + length argv + i) ≡ some p
  vector_var i e =
      after_argv (2 + length argv + i) (suc i) (omega arith)
      ∙ get_elem?-append_left vars (0 ∷ pairs auxv) i e

  module _ (argc_small : IsUsize (length argv)) (auxv_small : AllUsize auxv)
      (argv_at : layout.argv_base
        ≡ layout.sp + vector_bytes (length argv) (length env) (length auxv))
      (env_at : layout.env_base ≡ layout.argv_base + length (concat argv))
      (end_small : IsUsize (layout.env_base + length (concat env))) where
    pub image-IsStartStack : IsStartStack layout.sp all argv env auxv
    image-IsStartStack = record {
      argc = vector_word 0 refl argc_small;
      arg = λ i s e.
          let (offset, within, same, points) =
            pointers-concat argv ((concat env ++ random) ++ pad) i from_argv e in
          let word = vector_word (1 + i) (vector_arg i (points layout.argv_base)) (omega arith) in
          let place : vector_bytes (length argv) (length env) (length auxv) + offset
              ≡ layout.argv_base + offset - layout.sp =
            omega arith in
          rw word (subst (λ p. bytes_at all p (length s) ≡ s) place same);
      argv_null =
          vector_word (1 + length argv) (after_argv (1 + length argv) 0 (omega arith))
            (omega arith);
      var = λ i s e.
          let (offset, within, same, points) = pointers-concat env (random ++ pad) i from_env e in
          let word =
            vector_word (2 + length argv + i) (vector_var i (points layout.env_base))
              (omega arith) in
          let place : vector_bytes (length argv) (length env) (length auxv)
                + length (concat argv)
                + offset
              ≡ layout.env_base + offset - layout.sp =
            omega arith in
          rw word (subst (λ p. bytes_at all p (length s) ≡ s) place same);
      env_null =
          vector_word (2 + length argv + length env)
            (after_env (2 + length argv + length env) 0 (omega arith)) (omega arith);
      aux = λ i tag value e.
          let (small_tag, small_value) = All-get_elem? auxv i tag value auxv_small e in
          let (first, second) = get_elem?-pairs auxv i (2 * i) refl e in
          let n = 3 + length argv + length env + 2 * i in
          (
            vector_word n (after_env n (suc (2 * i)) (omega arith) ∙ first) small_tag,
            vector_word (4 + length argv + length env + 2 * i)
                (after_env (4 + length argv + length env + 2 * i) (suc (suc (2 * i))) (omega arith)
                  ∙ second)
                small_value,
          );
    }
