-- ===== src/Lx/Stack/Image.antt =====
-- The stack that servers/lx/src/elf.rs writes, and what can be read from it.
use ftl.Base.{
  ℕ, zero, suc, ◌+◌, ◌*◌, ◌≤◌, ◌≡◌, ◌∙◌, ap, sym, subst, refl, arith, some, List, [], ◌∷◌, ◌++◌,
  length, length-append, get_elem?,
}
use mathlib.Core.List.{append_assoc}
use ftl.Base.Word.{IsUsize}
use ftl.Base.Bytes.{
  to_le_bytes, length-to_le_bytes, bytes_at, word_at, IsCursor, move, advance, regroup,
  bytes_at-IsCursor, word_at-IsCursor,
}
use ftl.Base.Fallible.{return}
use ftl.Lx.Stack.{Layout, new, stack_size, align, write_stack}
use ftl.Lx.Stack.Writes.{
  wrote, words, length-words, concat, pointers, length-pointers, pairs, length-pairs, wrote-append,
  write_bytes-wrote, write_usize-wrote, write_pointers-wrote, write_auxv-wrote, write_strings-wrote,
  align-wrote, padding, length-padding, end_16,
}
use ftl.Lx.Stack.Sizes.{vector_bytes}

-- The words at the bottom of the stack.
abbrev pub vector : Layout → List (ℕ × ℕ) → List (List ℕ) → List (List ℕ) → List ℕ
vector layout auxv argv env =
    length argv
    ∷ (pointers layout.argv_base argv ++ (0 ∷ (pointers layout.env_base env ++ (0 ∷ pairs auxv))))

-- All that is written before the padding, and with it.
abbrev pub body : Layout → List (ℕ × ℕ) → List (List ℕ) → List (List ℕ) → List ℕ → List ℕ
body layout auxv argv env random =
    words (vector layout auxv argv env) ++ (concat argv ++ (concat env ++ random))

abbrev pub image : Layout → List (ℕ × ℕ) → List (List ℕ) → List (List ℕ) → List ℕ → List ℕ
image layout auxv argv env random =
    body layout auxv argv env random ++ padding (length (body layout auxv argv env random))

words-append : (ms ns : List ℕ) → words (ms ++ ns) ≡ words ms ++ words ns
unfolding words
words-append [] ns = refl
words-append (m ∷ ms) ns =
    ap (λ t. to_le_bytes 8 m ++ t) (words-append ms ns)
    ∙ sym (append_assoc (to_le_bytes 8 m) (words ms) (words ns))

pub length-vector :
    (layout : Layout) (auxv : List (ℕ × ℕ)) (argv env : List (List ℕ))
    → length (words (vector layout auxv argv env))
      ≡ vector_bytes (length argv) (length env) (length auxv)
length-vector layout auxv argv env = omega (
  arith,
  length-words (vector layout auxv argv env),
  length-append (pointers layout.argv_base argv)
      (0 ∷ (pointers layout.env_base env ++ (0 ∷ pairs auxv))),
  length-append (pointers layout.env_base env) (0 ∷ pairs auxv),
  length-pointers layout.argv_base argv,
  length-pointers layout.env_base env,
  length-pairs auxv,
)

pub length-body :
    (layout : Layout) (auxv : List (ℕ × ℕ)) (argv env : List (List ℕ)) (random : List ℕ)
    → length (body layout auxv argv env random)
      ≡ vector_bytes (length argv) (length env) (length auxv)
        + length (concat argv)
        + length (concat env)
        + length random
length-body layout auxv argv env random = omega (
  arith,
  length-vector layout auxv argv env,
  length-append (words (vector layout auxv argv env)) (concat argv ++ (concat env ++ random)),
  length-append (concat argv) (concat env ++ random),
  length-append (concat env) random,
)

-- A word of a sequence of words.
pub word_at-words :
    (ns rest : List ℕ) {bytes : List ℕ} {at : ℕ} (i : ℕ) {n : ℕ}
    → IsCursor bytes at (words ns ++ rest)
    → get_elem? ns i ≡ some n
    → IsUsize n
    → word_at bytes (at + 8 * i) 8 ≡ n
unfolding words
word_at-words [] rest i c e h = cc
word_at-words (m ∷ ms) rest {bytes} {at} zero {n} c e h =
    let same : m ≡ n = cc in
    let place : at ≡ at + 8 * 0 = omega arith in
    let c' = move (regroup (to_le_bytes 8 m) (words ms) rest c) place in
    rw same at
      (word_at-IsCursor {at = at + 8 * 0} 8 m (words ms ++ rest) c' (rw same (omega arith)))
word_at-words (m ∷ ms) rest {bytes} {at} (suc i) {n} c e h =
    let place : at + 8 + 8 * i ≡ at + 8 * suc i = omega arith in
    let c' =
      advance (to_le_bytes 8 m) 8 (regroup (to_le_bytes 8 m) (words ms) rest c)
        (length-to_le_bytes 8 m) in
    subst (λ p. word_at bytes p 8 ≡ n) place (word_at-words ms rest i c' e h)

-- A pointer, and the string it points to: `base` is the address of the first byte of `bytes`.
pub pointers-concat :
    (ss : List (List ℕ)) (rest : List ℕ) {bytes : List ℕ} {at : ℕ} (i : ℕ) {s : List ℕ}
    → IsCursor bytes at (concat ss ++ rest)
    → get_elem? ss i ≡ some s
    → (offset : ℕ) × (offset + length s ≤ length (concat ss))
      × (bytes_at bytes (at + offset) (length s) ≡ s)
      × ((base : ℕ) → get_elem? (pointers base ss) i ≡ some (base + offset))
unfolding concat pointers
pointers-concat [] rest i c e = cc
pointers-concat (t ∷ ts) rest {bytes} {at} zero {s} c e =
    let same : t ≡ s = cc in
    let place : at ≡ at + 0 = omega arith in
    let c' = move (regroup t (concat ts) rest c) place in
    (
      0,
      omega (arith, length-append t (concat ts), ap length same),
      rw same at (bytes_at-IsCursor {at = at + 0} t (concat ts ++ rest) c'),
      λ base. ap some (omega arith),
    )
pointers-concat (t ∷ ts) rest {bytes} {at} (suc i) {s} c e =
    let c' = advance t (length t) (regroup t (concat ts) rest c) refl in
    let (offset, within, same, points) = pointers-concat ts rest i c' e in
    let place : at + length t + offset ≡ at + (length t + offset) = omega arith in
    (
      length t + offset,
      omega (arith, length-append t (concat ts)),
      subst (λ p. bytes_at bytes p (length s) ≡ s) place same,
      λ base. points (base + length t) ∙ ap some (omega arith),
    )

-- The pieces in the order in which they are written.
body-pieces :
    (layout : Layout) (auxv : List (ℕ × ℕ)) (argv env : List (List ℕ)) (random : List ℕ)
    → to_le_bytes 8 (length argv)
        ++ (words (pointers layout.argv_base argv)
            ++ (to_le_bytes 8 0
                ++ (words (pointers layout.env_base env)
                    ++ (to_le_bytes 8 0
                        ++ (words (pairs auxv) ++ (concat argv ++ (concat env ++ random)))))))
      ≡ body layout auxv argv env random
unfolding words
body-pieces layout auxv argv env random = simp (words-append, append_assoc)

-- Everything up to the padding.
write_stack-body :
    (layout : Layout) (auxv : List (ℕ × ℕ)) (argv env : List (List ℕ)) (random : List ℕ)
    → length (body layout auxv argv env random) ≤ stack_size
    → IsUsize (layout.argv_base + length (concat argv))
    → IsUsize (layout.env_base + length (concat env))
    → write_stack layout auxv argv env random
      ≡ align (wrote (new stack_size) (body layout auxv argv env random)) 16
unfolding write_stack
write_stack-body layout auxv argv env random fits argv_small env_small =
    let w0 = new stack_size in
    let argc = to_le_bytes 8 (length argv) in
    let argv_words = words (pointers layout.argv_base argv) in
    let null = to_le_bytes 8 0 in
    let env_words = words (pointers layout.env_base env) in
    let auxv_words = words (pairs auxv) in
    let total = length-body layout auxv argv env random in
    let argc_size = length-to_le_bytes 8 (length argv) in
    let null_size = length-to_le_bytes 8 0 in
    let argv_size = length-words (pointers layout.argv_base argv) in
    let argv_count = length-pointers layout.argv_base argv in
    let env_size = length-words (pointers layout.env_base env) in
    let env_count = length-pointers layout.env_base env in
    let auxv_size = length-words (pairs auxv) in
    let auxv_count = length-pairs auxv in
    let w1 = wrote w0 argc in
    let w2 = wrote w1 argv_words in
    let w3 = wrote w2 null in
    let w4 = wrote w3 env_words in
    let w5 = wrote w4 null in
    let w6 = wrote w5 auxv_words in
    let w7 = wrote w6 (concat argv) in
    let w8 = wrote w7 (concat env) in
    let at2 = length-append w1.buf argv_words in
    let at3 = length-append w2.buf null in
    let at4 = length-append w3.buf env_words in
    let at5 = length-append w4.buf null in
    rw
      (
        write_usize-wrote w0 (length argv) (omega arith) (omega arith),
        write_pointers-wrote argv w1 layout.argv_base (omega arith) (omega arith) argv_small,
        write_usize-wrote w2 0 (omega arith) (omega arith),
        write_pointers-wrote env w3 layout.env_base (omega arith) (omega arith) env_small,
        write_usize-wrote w4 0 (omega arith) (omega arith),
        write_auxv-wrote auxv w5 (omega arith) (omega arith),
        write_strings-wrote argv w6 (omega arith),
        write_strings-wrote env w7 (omega arith),
        write_bytes-wrote w8 random (omega arith),
      )
      (ap (λ w. align w 16)
        (wrote-append w7 (concat env) random
          ∙ wrote-append w6 (concat argv) (concat env ++ random)
          ∙ wrote-append w5 auxv_words (concat argv ++ (concat env ++ random))
          ∙ wrote-append w4 null (auxv_words ++ (concat argv ++ (concat env ++ random)))
          ∙ wrote-append w3 env_words
              (null ++ (auxv_words ++ (concat argv ++ (concat env ++ random))))
          ∙ wrote-append w2 null
              (env_words ++ (null ++ (auxv_words ++ (concat argv ++ (concat env ++ random)))))
          ∙ wrote-append w1 argv_words (
              null
              ++ (env_words ++ (null ++ (auxv_words ++ (concat argv ++ (concat env ++ random))))))
          ∙ wrote-append w0 argc (
              argv_words
              ++ (null
                  ++ (env_words
                      ++ (null ++ (auxv_words ++ (concat argv ++ (concat env ++ random)))))))
          ∙ ap (wrote w0) (body-pieces layout auxv argv env random)))

pub write_stack_lem :
    (layout : Layout) (auxv : List (ℕ × ℕ)) (argv env : List (List ℕ)) (random : List ℕ)
    → end_16 (length (body layout auxv argv env random)) ≤ stack_size
    → IsUsize (layout.argv_base + length (concat argv))
    → IsUsize (layout.env_base + length (concat env))
    → write_stack layout auxv argv env random
      ≡ return (wrote (new stack_size) (image layout auxv argv env random))
write_stack_lem layout auxv argv env random fits argv_small env_small =
    let all = body layout auxv argv env random in
    let padded = length-padding (length all) in
    write_stack-body layout auxv argv env random (omega arith) argv_small env_small
    ∙ align-wrote (wrote (new stack_size) all) (omega arith) (omega arith)
    ∙ ap return (wrote-append (new stack_size) all (padding (length all)))

pub length-image :
    (layout : Layout) (auxv : List (ℕ × ℕ)) (argv env : List (List ℕ)) (random : List ℕ)
    → length (image layout auxv argv env random)
      ≡ end_16 (length (body layout auxv argv env random))
length-image layout auxv argv env random =
    let all = body layout auxv argv env random in
    length-append all (padding (length all)) ∙ length-padding (length all)
