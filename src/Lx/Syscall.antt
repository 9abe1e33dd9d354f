-- ===== src/Lx/Syscall.antt =====
-- servers/lx/src/syscall.rs and errno.rs: the system calls of a Linux program. Values of type `isize` are their 64-bit
-- patterns. The memory of the program, its thread and its log are those of the kernel: parameters, and the log
-- keeps the lines of bytes that it is given. `core::str::from_utf8` and `trim_ascii_end` are written out.
pub mod Write
pub mod Writev
use ftl.Base.{
  ℕ, zero, suc, ◌+◌, ◌-◌, ◌*◌, ◌^◌, ◌%◌, ltb, leb, ◌==◌, if◌then◌else◌, not, ◌&&◌, ◌||◌, Bool, true,
  false, Option, none, some, List, [], ◌∷◌, ◌++◌, min, Exec, done, panic, Result, ok, err, ◌>>=◌,
}
use ftl.Base.Word.{usize_mod, add, sub, mul}
use ftl.Base.Bytes.{word_at}

pub data Errno : Type 0 where
  ebadf efault einval enosys : Errno

abbrev pub errno_code : Errno → ℕ
errno_code ebadf = 9
errno_code efault = 14
errno_code einval = 22
errno_code enosys = 38

-- `to_retval`, as a `u64`
abbrev pub to_retval : Errno → ℕ
to_retval e = usize_mod - errno_code e

abbrev pub sys_write_nr : ℕ
sys_write_nr = 1

abbrev pub sys_writev_nr : ℕ
sys_writev_nr = 20

abbrev pub sys_arch_prctl_nr : ℕ
sys_arch_prctl_nr = 158

abbrev pub sys_exit_nr : ℕ
sys_exit_nr = 60

abbrev pub sys_set_tid_address_nr : ℕ
sys_set_tid_address_nr = 218

abbrev pub sys_exit_group_nr : ℕ
sys_exit_group_nr = 231

abbrev pub arch_set_fs : ℕ
arch_set_fs = 0x1002

pub record Iovec : Type 0 where
  pub iov_base : ℕ
  pub iov_len : ℕ

-- A pattern of a negative `isize`; the order and the sum of `isize`.
abbrev pub is_negative : ℕ → Bool
is_negative a = leb (2 ^ 63) a

abbrev pub above_isize : ℕ → ℕ → Bool
above_isize a n = not (is_negative a) && ltb n a

unfoldable pub add_isize : ℕ → ℕ → Exec ℕ
add_isize a b =
    let r = (a + b) % usize_mod in
    elim (is_negative a) [
      | true ↦ if is_negative b && not (is_negative r) then panic else done r
      | false ↦ if not (is_negative b) && is_negative r then panic else done r
    ]

pub data SyscallOutput : Type 0 where
  finished : Result ℕ Errno → SyscallOutput
  exit : SyscallOutput

-- A call's result, and the lines that it logged.
abbrev pub Logged : Type 0 → Type 0
Logged A = Exec (Result A Errno × List (List ℕ))

abbrev pub log : {A : Type 0} → List (List ℕ) → Logged A → Logged A
log lines m = m >>= λ (r, more). done (r, lines ++ more)

abbrev pub and_then : {A B : Type 0} → Logged A → (A → Logged B) → Logged B
and_then m f = m >>= λ (r, lines). elim r [ ok a ↦ log lines (f a) | err e ↦ done (err e, lines) ]

abbrev pub no_log : {A : Type 0} → Result A Errno → Logged A
no_log r = done (r, [])

-- `fd != 1 && fd != 2`
abbrev pub bad_fd : ℕ → Bool
bad_fd fd = not (fd == 1) && not (fd == 2)

-- The `i`-th of the iovecs in a buffer.
unfoldable pub read_iovecs : List ℕ → ℕ → ℕ → List Iovec
read_iovecs buf at zero = []
read_iovecs buf at (suc n) =
    record { iov_base = word_at buf at 8; iov_len = word_at buf (at + 8) 8 }
    ∷ read_iovecs buf (at + 16) n

-- The ranges of the bytes that follow the first one of a character.
continuations : ℕ → Option (List (ℕ × ℕ))
continuations b =
    let next : ℕ × ℕ = (0x80, 0xbf) in
    if ltb b 0x80
    then some []
    else if ltb b 0xc2
    then none
    else if ltb b 0xe0
    then some (next ∷ [])
    else if b == 0xe0
    then some ((0xa0, 0xbf) ∷ next ∷ [])
    else if b == 0xed
    then some ((0x80, 0x9f) ∷ next ∷ [])
    else if ltb b 0xf0
    then some (next ∷ next ∷ [])
    else if b == 0xf0
    then some ((0x90, 0xbf) ∷ next ∷ next ∷ [])
    else if ltb b 0xf4
    then some (next ∷ next ∷ next ∷ [])
    else if b == 0xf4
    then some ((0x80, 0x8f) ∷ next ∷ next ∷ [])
    else none

-- Whether bytes are UTF-8, where those in the `pending` ranges are still to come.
utf8_from : List (ℕ × ℕ) → List ℕ → Bool
utf8_from [] [] = true
utf8_from (r ∷ pending) [] = false
utf8_from [] (b ∷ bs) = elim (continuations b) [
  | none ↦ false
  | some pending ↦ utf8_from pending bs
]
utf8_from ((low, high) ∷ pending) (b ∷ bs) = leb low b && leb b high && utf8_from pending bs

unfoldable pub is_utf8 : List ℕ → Bool
unfolding utf8_from continuations
is_utf8 bytes = utf8_from [] bytes

abbrev is_ascii_whitespace : ℕ → Bool
is_ascii_whitespace b = b == 32 || b == 9 || b == 10 || b == 12 || b == 13

-- What stands before `rest`, which is trimmed.
trim_before : ℕ → List ℕ → List ℕ
trim_before b [] = if is_ascii_whitespace b then [] else b ∷ []
trim_before b (x ∷ rest) = b ∷ x ∷ rest

unfoldable pub trim_ascii_end : List ℕ → List ℕ
unfolding trim_before
trim_ascii_end [] = []
trim_ascii_end (b ∷ bs) = trim_before b (trim_ascii_end bs)

abbrev invalid_utf8 : List ℕ
invalid_utf8 =
    b'i' ∷ b'n' ∷ b'v' ∷ b'a' ∷ b'l' ∷ b'i' ∷ b'd' ∷ b' ' ∷ b'u' ∷ b't' ∷ b'f' ∷ b'8' ∷ []

-- The line that `sys_write` logs for a chunk.
unfoldable pub line_of : List ℕ → List ℕ
line_of chunk =
    let text : List ℕ = if is_utf8 chunk then chunk else invalid_utf8 in
    (b'w' ∷ b'r' ∷ b'i' ∷ b't' ∷ b'e' ∷ b':' ∷ b' ' ∷ []) ++ trim_ascii_end text

-- `read_bytes(uaddr, n)` of the program's address space, and `set_context(Fsbase, addr)` of its thread.
module _ (read_bytes : ℕ → ℕ → Option (List ℕ)) (set_fsbase : ℕ → Bool) where
  -- The loop of `sys_write`. A round takes a byte or more, so that as many rounds as bytes are enough.
  unfoldable pub write_loop : ℕ → ℕ → ℕ → Logged (Unit {0})
  write_loop zero uaddr remaining = no_log (ok tt)
  write_loop (suc rounds) uaddr zero = no_log (ok tt)
  write_loop (suc rounds) uaddr (suc k) =
      let n = min (suc k) 256 in
      elim (read_bytes uaddr n) [
        | none ↦ no_log (err efault)
        | some chunk ↦ log (line_of chunk ∷ []) (
            add uaddr n >>= λ uaddr'.
            sub (suc k) n >>= λ remaining'. write_loop rounds uaddr' remaining')
      ]

  unfoldable pub sys_write : ℕ → ℕ → ℕ → Logged ℕ
  sys_write fd uaddr count =
      if bad_fd fd
      then no_log (err ebadf)
      else and_then (write_loop count uaddr count) (λ _. no_log (ok count))

  -- The loop of `sys_writev`, with `total`.
  unfoldable pub writev_loop : ℕ → ℕ → List Iovec → Logged ℕ
  writev_loop fd total [] = no_log (ok total)
  writev_loop fd total (v ∷ vs) =
      and_then (sys_write fd v.iov_base v.iov_len)
        λ n. add_isize total n >>= λ total'. writev_loop fd total' vs

  unfoldable pub sys_writev : ℕ → ℕ → ℕ → Logged ℕ
  sys_writev fd iov_uaddr iovcnt =
      if bad_fd fd
      then no_log (err ebadf)
      else if above_isize iovcnt 16
      then no_log (err einval)
      else (mul iovcnt 16 >>= λ len. elim (read_bytes iov_uaddr len) [
        | none ↦ no_log (err efault)
        | some buf ↦ writev_loop fd 0 (read_iovecs buf 0 iovcnt)
      ])

  unfoldable pub sys_arch_prctl : ℕ → ℕ → Result ℕ Errno
  sys_arch_prctl code addr =
      if code == arch_set_fs then (if set_fsbase addr then ok 0 else err einval) else err enosys

  abbrev returned : Logged ℕ → Exec (SyscallOutput × List (List ℕ))
  returned m = m >>= λ (r, lines). done (finished r, lines)

  -- The match of `handle_syscall`; an exit terminates the thread.
  unfoldable pub handle_syscall : ℕ → ℕ → ℕ → ℕ → Exec (SyscallOutput × List (List ℕ))
  handle_syscall n arg0 arg1 arg2 =
      if n == sys_exit_nr || n == sys_exit_group_nr
      then done (exit, [])
      else if n == sys_write_nr
      then returned (sys_write arg0 arg1 arg2)
      else if n == sys_writev_nr
      then returned (sys_writev arg0 arg1 arg2)
      else if n == sys_arch_prctl_nr
      then done (finished (sys_arch_prctl arg0 arg1), [])
      else if n == sys_set_tid_address_nr
      then done (finished (ok 1000), [])
      else done (finished (err enosys), [])
