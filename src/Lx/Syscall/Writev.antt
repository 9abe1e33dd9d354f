-- ===== src/Lx/Syscall/Writev.antt =====
-- What `sys_writev` of servers/lx/src/syscall.rs logs, and the counts that it does not survive.
use ftl.Base.{
  ℕ, ◌+◌, ◌*◌, ◌^◌, ◌≤◌, ◌<◌, ◌≡◌, ◌∙◌, ap, ap₂, refl, sym, arith, Bool, true, false, Option, List,
  [], ◌∷◌, ◌++◌, map, All, done, panic, ok,
}
use ftl.Base.Word.{IsUsize, mul, mul-done}
use ftl.Base.Ram.{Ram, load}
use ftl.Lx.Syscall.{
  Iovec, bad_fd, line_of, is_negative, above_isize, add_isize, read_iovecs, writev_loop, sys_writev,
}
use ftl.Lx.Syscall.Write.{CanRead, ChunksOf, sys_write_lem}

add_isize-done : (a b : ℕ) → a + b < 2 ^ 63 → add_isize a b ≡ done (a + b)
unfolding add_isize
add_isize-done a b h = ground arith

map-append : {A B : Type 0} (f : A → B) (xs ys : List A) → map f (xs ++ ys) ≡ map f xs ++ map f ys
map-append f [] ys = refl
map-append f (x ∷ xs) ys = ap (◌∷◌ (f x)) (map-append f xs ys)

abbrev pub total_len : List Iovec → ℕ
total_len [] = 0
total_len (v ∷ vs) = v.iov_len + total_len vs

module _ (read_bytes : ℕ → ℕ → Option (List ℕ)) (set_fsbase : ℕ → Bool) (memory : Ram) where
  -- The chunks are those of the bytes that each iovec names, in order.
  abbrev pub Gathers : List Iovec → List (List ℕ) → Type 0
  Gathers [] chunks = chunks ≡ []
  Gathers (v ∷ vs) chunks =
      (first : List (List ℕ)) × (others : List (List ℕ)) × (chunks ≡ first ++ others)
      × ChunksOf read_bytes set_fsbase memory (load memory v.iov_base v.iov_len) first
      × Gathers vs others

  abbrev pub AllReadable : List Iovec → Type 0
  AllReadable vs =
      All
        (λ v.
          IsUsize (v.iov_base + v.iov_len)
          × CanRead read_bytes set_fsbase memory v.iov_base v.iov_len)
        vs

  writev_loop_lem :
      (fd total : ℕ) (vs : List Iovec)
      → bad_fd fd ≡ false
      → AllReadable vs
      → total + total_len vs < 2 ^ 63
      → (chunks : List (List ℕ)) × (writev_loop read_bytes set_fsbase fd total vs
          ≡ done (ok (total + total_len vs), map line_of chunks))
        × Gathers vs chunks
  unfolding writev_loop
  writev_loop_lem fd total [] good can small =
      ([], ap (λ (n : ℕ). done (ok n, [])) (omega arith), refl)
  writev_loop_lem fd total (v ∷ vs) good can small =
      let (first, run, spec) =
        sys_write_lem read_bytes set_fsbase memory fd v.iov_base v.iov_len good can.0.0 can.0.1 in
      let (others, run', spec') =
        writev_loop_lem fd (total + v.iov_len) vs good can.1 (omega arith) in
      (
        first ++ others,
        rw (writev_loop, run, add_isize-done total v.iov_len (omega arith), run')
            (ap₂ (λ (n : ℕ) (lines : List (List ℕ)). done (ok n, lines)) (omega arith)
              (sym (map-append line_of first others))),
        (first, others, refl, spec, spec'),
      )

  -- A `writev` of at most 16 iovecs, whose table and bytes the program may read and whose lengths add up to an
  -- `isize`, returns their sum. It cuts the bytes of each iovec, in order, into chunks of 256, of which the last may be shorter,
  -- and logs one line for each chunk, in order: the chunk, or "invalid utf8" if the chunk is not UTF-8, without the white
  -- space at its end.
  pub sys_writev_lem :
      (fd iov_uaddr iovcnt : ℕ)
      → bad_fd fd ≡ false
      → iovcnt ≤ 16
      → CanRead read_bytes set_fsbase memory iov_uaddr (iovcnt * 16)
      → AllReadable (read_iovecs (load memory iov_uaddr (iovcnt * 16)) 0 iovcnt)
      → total_len (read_iovecs (load memory iov_uaddr (iovcnt * 16)) 0 iovcnt) < 2 ^ 63
      → (chunks : List (List ℕ)) × (sys_writev read_bytes set_fsbase fd iov_uaddr iovcnt
          ≡ done (
            ok (total_len (read_iovecs (load memory iov_uaddr (iovcnt * 16)) 0 iovcnt)),
            map line_of chunks,
          ))
        × Gathers (read_iovecs (load memory iov_uaddr (iovcnt * 16)) 0 iovcnt) chunks
  unfolding sys_writev
  sys_writev_lem fd iov_uaddr iovcnt good few table can small =
      let vs = read_iovecs (load memory iov_uaddr (iovcnt * 16)) 0 iovcnt in
      let within : above_isize iovcnt 16 ≡ false = ground arith in
      let whole : 0 + total_len vs ≡ total_len vs = omega arith in
      let (chunks, run, spec) = writev_loop_lem fd 0 vs good can (omega arith) in
      (
        chunks,
        rw
            (
              sys_writev,
              good,
              within,
              mul-done iovcnt 16 (omega arith),
              table iov_uaddr (iovcnt * 16) (omega arith) (omega arith),
            )
            (run ∙ ap (λ (n : ℕ). done (ok n, map line_of chunks)) whole),
        spec,
      )

module _ (read_bytes : ℕ → ℕ → Option (List ℕ)) (set_fsbase : ℕ → Bool) where
  -- A negative count passes the test of `sys_writev` for more than 16, and the size of the table overflows.
  pub sys_writev_negative :
      (fd iov_uaddr iovcnt : ℕ)
      → bad_fd fd ≡ false
      → is_negative iovcnt ≡ true
      → IsUsize iovcnt
      → sys_writev read_bytes set_fsbase fd iov_uaddr iovcnt ≡ panic
  unfolding sys_writev
  sys_writev_negative fd iov_uaddr iovcnt good negative small =
      let passes : above_isize iovcnt 16 ≡ false = ground arith in
      let over : mul iovcnt 16 ≡ panic = ground arith in rw (sys_writev, good, passes, over)
