-- ===== src/Lx/Stack/Writes.antt =====
-- What the writes of servers/lx/src/elf.rs put on the stack.
use ftl.Base.{
  ℕ, suc, ◌+◌, ◌-◌, ◌*◌, ◌/◌, ◌%◌, ◌≤◌, ◌≡◌, ◌∙◌, ap, sym, refl, arith, List, [], ◌∷◌, ◌++◌, length,
  length-append, replicate, length-replicate, done,
}
use mathlib.Core.List.{append_assoc, append-nil}
use ftl.Base.Word.{IsUsize, add-done}
use ftl.Base.Bytes.{to_le_bytes, length-to_le_bytes}
use ftl.Base.Fallible.{return}
use ftl.Align.{align_up}
use ftl.Align.Laws.{is_aligned-pow, align_up-pow}
use ftl.Lx.Stack.{
  StackWriter, write_bytes, write_usize, align, write_pointers, write_auxv, write_strings,
}

-- The writer after `bytes` more.
abbrev pub wrote : StackWriter → List ℕ → StackWriter
wrote w bytes = record { buf = w.buf ++ bytes; remaining = w.remaining - length bytes }

pub write_bytes-wrote :
    (w : StackWriter) (bytes : List ℕ)
    → length bytes ≤ w.remaining
    → write_bytes w bytes ≡ return (wrote w bytes)
unfolding write_bytes
write_bytes-wrote w bytes h = ground arith

pub write_usize-wrote :
    (w : StackWriter) (n : ℕ)
    → length w.buf % 8 ≡ 0
    → 8 ≤ w.remaining
    → write_usize w n ≡ return (wrote w (to_le_bytes 8 n))
unfolding write_usize
write_usize-wrote w n aligned room =
    rw (is_aligned-pow (length w.buf) 3 (omega arith), aligned)
      (write_bytes-wrote w (to_le_bytes 8 n) (omega (arith, length-to_le_bytes 8 n)))

-- Words, one after the other.
unfoldable pub words : List ℕ → List ℕ
words [] = []
words (n ∷ ns) = to_le_bytes 8 n ++ words ns

pub length-words : (ns : List ℕ) → length (words ns) ≡ 8 * length ns
unfolding words
length-words [] = refl
length-words (n ∷ ns) =
    omega
      (arith, length-append (to_le_bytes 8 n) (words ns), length-to_le_bytes 8 n, length-words ns)

unfoldable pub concat : List (List ℕ) → List ℕ
concat [] = []
concat (s ∷ ss) = s ++ concat ss

-- The addresses of strings that stand one after the other.
unfoldable pub pointers : ℕ → List (List ℕ) → List ℕ
pointers uaddr [] = []
pointers uaddr (s ∷ ss) = uaddr ∷ pointers (uaddr + length s) ss

pub length-pointers : (uaddr : ℕ) (ss : List (List ℕ)) → length (pointers uaddr ss) ≡ length ss
unfolding pointers
length-pointers uaddr [] = refl
length-pointers uaddr (s ∷ ss) = ap suc (length-pointers (uaddr + length s) ss)

unfoldable pub pairs : List (ℕ × ℕ) → List ℕ
pairs [] = []
pairs ((a, b) ∷ rest) = a ∷ b ∷ pairs rest

pub length-pairs : (ps : List (ℕ × ℕ)) → length (pairs ps) ≡ 2 * length ps
unfolding pairs
length-pairs [] = refl
length-pairs ((a, b) ∷ rest) = omega (arith, length-pairs rest)

-- Writing nothing, and writing twice.
wrote-nil : (w : StackWriter) → wrote w [] ≡ w
wrote-nil w = ground (arith, append-nil w.buf)

pub wrote-append : (w : StackWriter) (a b : List ℕ) → wrote (wrote w a) b ≡ wrote w (a ++ b)
wrote-append w a b = ground (arith, append_assoc w.buf a b, length-append a b)

pub write_pointers-wrote :
    (ss : List (List ℕ)) (w : StackWriter) (uaddr : ℕ)
    → length w.buf % 8 ≡ 0
    → 8 * length ss ≤ w.remaining
    → IsUsize (uaddr + length (concat ss))
    → write_pointers w uaddr ss ≡ return (wrote w (words (pointers uaddr ss)))
unfolding write_pointers words pointers concat
write_pointers-wrote [] w uaddr aligned room small = ap return (sym (wrote-nil w))
write_pointers-wrote (s ∷ ss) w uaddr aligned room small =
    let size = length-append s (concat ss) in
    let eight = length-to_le_bytes 8 uaddr in
    rw (write_usize-wrote w uaddr aligned (omega arith), add-done uaddr (length s) (omega arith))
      (write_pointers-wrote ss (wrote w (to_le_bytes 8 uaddr)) (uaddr + length s)
          (omega (arith, length-append w.buf (to_le_bytes 8 uaddr))) (omega arith) (omega arith)
        ∙ ap return (wrote-append w (to_le_bytes 8 uaddr) (words (pointers (uaddr + length s) ss))))

pub write_auxv-wrote :
    (ps : List (ℕ × ℕ)) (w : StackWriter)
    → length w.buf % 8 ≡ 0
    → 16 * length ps ≤ w.remaining
    → write_auxv w ps ≡ return (wrote w (words (pairs ps)))
unfolding write_auxv words pairs
write_auxv-wrote [] w aligned room = ap return (sym (wrote-nil w))
write_auxv-wrote ((a, b) ∷ ps) w aligned room =
    let first = wrote w (to_le_bytes 8 a) in
    let second = wrote first (to_le_bytes 8 b) in
    let eight_a = length-to_le_bytes 8 a in
    let eight_b = length-to_le_bytes 8 b in
    let size_a = length-append w.buf (to_le_bytes 8 a) in
    let size_b = length-append first.buf (to_le_bytes 8 b) in
    rw
      (
        write_usize-wrote w a aligned (omega arith),
        write_usize-wrote first b (omega arith) (omega arith),
      )
      (write_auxv-wrote ps second (omega arith) (omega arith)
        ∙ ap return (
            wrote-append first (to_le_bytes 8 b) (words (pairs ps))
            ∙ wrote-append w (to_le_bytes 8 a) (to_le_bytes 8 b ++ words (pairs ps))))

pub write_strings-wrote :
    (ss : List (List ℕ)) (w : StackWriter)
    → length (concat ss) ≤ w.remaining
    → write_strings w ss ≡ return (wrote w (concat ss))
unfolding write_strings concat
write_strings-wrote [] w room = ap return (sym (wrote-nil w))
write_strings-wrote (s ∷ ss) w room =
    let size = length-append s (concat ss) in
    rw (write_bytes-wrote w s (omega arith))
      (write_strings-wrote ss (wrote w s) (omega arith) ∙ ap return (wrote-append w s (concat ss)))

-- The multiple of 16 that `align` reaches, and the padding to it.
abbrev pub end_16 : ℕ → ℕ
end_16 n = (n + 16 - 1) / 16 * 16

pub align_up_16 : (n : ℕ) → IsUsize (n + 16) → align_up n 16 ≡ done (end_16 n)
align_up_16 n h = align_up-pow n 4 h (omega arith)

abbrev pub padding : ℕ → List ℕ
padding n = replicate (end_16 n - n) 0

pub length-padding : (n : ℕ) → n + length (padding n) ≡ end_16 n
length-padding n = omega (arith, length-replicate {A = ℕ} (end_16 n - n) 0)

pub align-wrote :
    (w : StackWriter)
    → IsUsize (length w.buf + 16)
    → length (padding (length w.buf)) ≤ w.remaining
    → align w 16 ≡ return (wrote w (padding (length w.buf)))
unfolding align
align-wrote w small room =
    rw (align_up_16 (length w.buf) small)
      (ground (arith, length-replicate {A = ℕ} (end_16 (length w.buf) - length w.buf) 0))
