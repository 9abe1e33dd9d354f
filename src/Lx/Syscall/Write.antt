-- ===== src/Lx/Syscall/Write.antt =====
-- What `sys_write` of servers/lx/src/syscall.rs logs.
use ftl.Base.{
  ℕ, zero, suc, ◌+◌, ◌-◌, ◌≤◌, ◌≡◌, ◌∙◌, ap, refl, arith, Bool, false, Option, some, List, [], ◌∷◌,
  ◌++◌, length, min, done, ok, map, ◌<◌, ◌⊎◌, inl, inr, ltb, Bool-cases,
}
use mathlib.Core.List.{append-nil}
use ftl.Base.Word.{IsUsize, add-done, sub-done}
use ftl.Base.Ram.{Ram, load, length-load, load-append}
use ftl.Lx.Stack.Writes.{concat}
use ftl.Lx.Syscall.{bad_fd, line_of, write_loop, sys_write}

module _ (read_bytes : ℕ → ℕ → Option (List ℕ)) (set_fsbase : ℕ → Bool) (memory : Ram) where
  -- The program may read the `count` bytes at `uaddr`, and reads the memory there.
  abbrev pub CanRead : ℕ → ℕ → Type 0
  CanRead uaddr count =
      (x n : ℕ) → uaddr ≤ x → x + n ≤ uaddr + count → read_bytes x n ≡ some (load memory x n)

  -- Each chunk has 256 bytes, but the last may have fewer.
  abbrev pub AllFull : List (List ℕ) → Type 0
  AllFull [] = Unit
  AllFull (c ∷ cs) =
      ((length c ≡ 256) ⊎ ((0 < length c) × (length c < 256) × (concat cs ≡ []))) × AllFull cs

  -- The chunks are these bytes.
  abbrev pub ChunksOf : List ℕ → List (List ℕ) → Type 0
  ChunksOf bytes chunks = (concat chunks ≡ bytes) × AllFull chunks

  chunk_full :
      (uaddr k : ℕ) (cs : List (List ℕ))
      → let n = min (suc k) 256 in
        concat cs ≡ load memory (uaddr + n) (suc k - n)
        → (length (load memory uaddr n) ≡ 256)
          ⊎ ((0 < length (load memory uaddr n))
              × (length (load memory uaddr n) < 256)
              × (concat cs ≡ []))
  unfolding load
  chunk_full uaddr k cs e = elim (Bool-cases (ltb (suc k) 256)) [
    | inr long ↦ inl (ground (arith, length-load memory uaddr (min (suc k) 256)))
    | inl short ↦
        let gone : suc k - min (suc k) 256 ≡ 0 = ground arith in
        let size = length-load memory uaddr (min (suc k) 256) in
        inr (ground arith, ground arith, e ∙ ap (load memory (uaddr + min (suc k) 256)) gone)
  ]

  write_loop_nothing : (uaddr : ℕ) → ChunksOf (load memory uaddr 0) []
  unfolding load concat
  write_loop_nothing uaddr = (refl, tt)

  write_loop_lem :
      (rounds uaddr count : ℕ)
      → count ≤ rounds
      → IsUsize (uaddr + count)
      → CanRead uaddr count
      → (chunks : List (List ℕ)) × (write_loop read_bytes set_fsbase rounds uaddr count
          ≡ done (ok tt, map line_of chunks))
        × ChunksOf (load memory uaddr count) chunks
  unfolding write_loop concat
  write_loop_lem zero uaddr zero enough small can = ([], refl, write_loop_nothing uaddr)
  write_loop_lem zero uaddr (suc k) enough small can = absurd (omega arith)
  write_loop_lem (suc rounds) uaddr zero enough small can = ([], refl, write_loop_nothing uaddr)
  write_loop_lem (suc rounds) uaddr (suc k) enough small can =
      let n = min (suc k) 256 in
      let (chunks, run, spec) =
        write_loop_lem rounds (uaddr + n) (suc k - n) (omega arith) (omega arith)
          (λ x m lo hi. can x m (omega arith) (omega arith)) in
      let whole : n + (suc k - n) ≡ suc k = omega arith in
      (
        load memory uaddr n ∷ chunks,
        rw
            (
              write_loop,
              can uaddr n (omega arith) (omega arith),
              add-done uaddr n (omega arith),
              sub-done (suc k) n (omega arith),
              run,
            )
            refl,
        (
          ap (λ (r : List ℕ). load memory uaddr n ++ r) spec.0
              ∙ load-append n memory uaddr (suc k - n)
              ∙ ap (load memory uaddr) whole,
          (chunk_full uaddr k chunks spec.0, spec.1),
        ),
      )

  -- A write of bytes that the program may read, to the standard output or error, returns their number. It cuts the bytes, in
  -- order, into chunks of 256, of which the last may be shorter, and logs one line for each, in order: the chunk, or
  -- "invalid utf8" if the chunk is not UTF-8, without the white space at its end.
  pub sys_write_lem :
      (fd uaddr count : ℕ)
      → bad_fd fd ≡ false
      → IsUsize (uaddr + count)
      → CanRead uaddr count
      → (chunks : List (List ℕ)) × (sys_write read_bytes set_fsbase fd uaddr count
          ≡ done (ok count, map line_of chunks))
        × ChunksOf (load memory uaddr count) chunks
  unfolding sys_write
  sys_write_lem fd uaddr count good small can =
      let (chunks, run, spec) = write_loop_lem count uaddr count (omega arith) small can in
      (
        chunks,
        rw (sys_write, good, run)
            (ap (λ (c : List (List ℕ)). done (ok count, c)) (append-nil (map line_of chunks))),
        spec,
      )
