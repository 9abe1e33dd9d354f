-- ===== src/Tests/Linux.antt =====
-- The Linux personality server on a program with one argument.
use ftl.Base.{
  ℕ, ◌+◌, ◌-◌, ◌%◌, ◌^◌, ◌≤◌, ◌<◌, ◌≡◌, refl, arith, if◌then◌else◌, ltb, true, false, Bool, Option,
  some, List, [], ◌∷◌, ◌++◌, length, map, done, panic, Result, ok,
}
use ftl.Base.Word.{IsUsize}
use ftl.Base.Bytes.{to_le_bytes, from_le_bytes}
use ftl.Base.Ram.{Ram, store, load}
use ftl.Base.Fallible.{◌>>=◌, return, fail}
use ftl.Api.ErrorCode.{ErrorCode}
use ftl.Tests.Elves.{small_header}
use ftl.Lx.Stack.{
  Layout, ends_with_nul, auxv_count, stack_size, stack_too_small, not_nul_terminated,
  estimate_stack_size, finish, build_initial_stack,
}
use ftl.Lx.Stack.Writes.{concat, end_16}
use ftl.Lx.Stack.Sizes.{all_nul, body_bytes, vector_bytes, layout_of, estimate_stack_size_outcome}
use ftl.Lx.Stack.Program.{IsStack, build_initial_stack_lem}
use ftl.Lx.Syscall.{read_iovecs, line_of, is_utf8, trim_ascii_end, sys_write, sys_writev}
use ftl.Lx.Syscall.Write.{CanRead, ChunksOf, sys_write_lem}
use ftl.Lx.Syscall.Writev.{total_len, Gathers, AllReadable, sys_writev_lem, sys_writev_negative}

abbrev argv : List (List ℕ)
argv = (b'h' ∷ b'i' ∷ 0 ∷ []) ∷ []

abbrev env : List (List ℕ)
env = (b'A' ∷ b'=' ∷ 0 ∷ []) ∷ (b'B' ∷ b'=' ∷ b'1' ∷ 0 ∷ []) ∷ []

abbrev entropy : List ℕ
entropy = b'4' ∷ b'4' ∷ []

-- An area that keeps the last write.
abbrev write_area : List ℕ → ℕ → List ℕ → Result (Unit {0}) ErrorCode × List ℕ
write_area area offset bytes = (ok tt, bytes)

argv_nul : all_nul argv ≡ true
unfolding ends_with_nul
argv_nul = refl

env_nul : all_nul env ≡ true
unfolding ends_with_nul
env_nul = refl

body_fits : end_16 (body_bytes argv env (length entropy) auxv_count) ≤ stack_size
unfolding concat
body_fits = omega arith

body_small : IsUsize (body_bytes argv env (length entropy) auxv_count + 16)
unfolding concat
body_small = omega arith

build_initial_stack_lem_example :
    (layout : Layout) × (bytes : List ℕ) × (build_initial_stack write_area [] small_header argv env
        (some 0x400042)
        entropy
      ≡ (finish write_area (record { buf = bytes; remaining = stack_size - length bytes }) []
          >>= λ area'. return (layout.sp, area')))
    × IsStack layout bytes small_header argv env (some 0x400042) entropy
build_initial_stack_lem_example =
    build_initial_stack_lem write_area [] small_header argv env (some 0x400042) entropy argv_nul
      env_nul body_fits (omega arith)

estimate_stack_size_outcome_example : estimate_stack_size argv env 2 auxv_count ≡ (
    if all_nul argv
    then (if all_nul env
        then (if ltb stack_size (end_16 (body_bytes argv env 2 auxv_count))
            then fail stack_too_small
            else return (
                layout_of
                  (vector_bytes 1 2 auxv_count)
                  (length (concat argv))
                  (length (concat env))
                  2))
        else fail not_nul_terminated)
    else fail not_nul_terminated)
estimate_stack_size_outcome_example = estimate_stack_size_outcome argv env 2 auxv_count body_small

abbrev write_prefix : List ℕ
write_prefix = b'w' ∷ b'r' ∷ b'i' ∷ b't' ∷ b'e' ∷ b':' ∷ b' ' ∷ []

trimmed_line : line_of (b'h' ∷ b'i' ∷ 32 ∷ 10 ∷ []) ≡ write_prefix ++ b'h' ∷ b'i' ∷ []
unfolding line_of is_utf8 trim_ascii_end
trimmed_line = refl

-- A character of two bytes is whole, or cut after its first.
whole_line : line_of (0xc3 ∷ 0xa9 ∷ []) ≡ write_prefix ++ 0xc3 ∷ 0xa9 ∷ []
unfolding line_of is_utf8 trim_ascii_end
whole_line = refl

cut_character : is_utf8 (b'h' ∷ 0xc3 ∷ []) ≡ false
unfolding is_utf8
cut_character = refl

-- A program whose table of one iovec stands at 0x1000.
abbrev memory : Ram
memory = store (λ x. x % 256) 0x1000 (to_le_bytes 8 0x2000 ++ to_le_bytes 8 3)

abbrev read_memory : ℕ → ℕ → Option (List ℕ)
read_memory uaddr n = some (load memory uaddr n)

abbrev set_fsbase : ℕ → Bool
set_fsbase addr = true

readable : (uaddr count : ℕ) → CanRead read_memory set_fsbase memory uaddr count
readable uaddr count x n lo hi = refl

sys_write_lem_example :
    (chunks : List (List ℕ)) × (sys_write read_memory set_fsbase 1 0x1234 300
      ≡ done (ok 300, map line_of chunks))
    × ChunksOf read_memory set_fsbase memory (load memory 0x1234 300) chunks
sys_write_lem_example =
    sys_write_lem read_memory set_fsbase memory 1 0x1234 300 refl (omega arith)
      (readable 0x1234 300)

iovec_readable : AllReadable read_memory set_fsbase memory (read_iovecs (load memory 0x1000 16) 0 1)
unfolding read_iovecs load store to_le_bytes from_le_bytes
iovec_readable = ((omega arith, readable 0x2000 3), tt)

iovec_total : total_len (read_iovecs (load memory 0x1000 16) 0 1) < 2 ^ 63
unfolding read_iovecs load store to_le_bytes from_le_bytes
iovec_total = omega arith

sys_writev_lem_example :
    (chunks : List (List ℕ)) × (sys_writev read_memory set_fsbase 2 0x1000 1
      ≡ done (ok (total_len (read_iovecs (load memory 0x1000 16) 0 1)), map line_of chunks))
    × Gathers read_memory set_fsbase memory (read_iovecs (load memory 0x1000 16) 0 1) chunks
sys_writev_lem_example =
    sys_writev_lem read_memory set_fsbase memory 2 0x1000 1 refl (omega arith) (readable 0x1000 16)
      iovec_readable iovec_total

sys_writev_negative_example : sys_writev read_memory set_fsbase 1 0x1000 (2 ^ 64 - 1) ≡ panic
sys_writev_negative_example =
    sys_writev_negative read_memory set_fsbase 1 0x1000 (2 ^ 64 - 1) refl refl (omega arith)
