-- ===== src/Lx/Stack.antt =====
-- servers/lx/src/elf.rs: the initial stack of a Linux program, its arguments, environment and auxiliary
-- vector. The stack area is written by a call of the kernel: a parameter of `build_initial_stack`.
pub mod Writes
pub mod Sizes
pub mod Image
pub mod Reading
pub mod Program
use ftl.Base.{
  ℕ, zero, suc, ◌+◌, ◌-◌, ◌*◌, ltb, ◌==◌, if◌then◌else◌, Bool, true, false, not, Option, none, some,
  List, [], ◌∷◌, ◌++◌, length, replicate, Exec, done, Result, ok, err,
}
use ftl.Base.Word.{add, sub, mul}
use ftl.Base.Bytes.{to_le_bytes}
use ftl.Base.Fallible.{Fallible, ◌>>=◌, ◌>>◌, return, fail, lift}
use ftl.Align.{align_up, is_aligned}
use ftl.Api.ErrorCode.{ErrorCode}
use ftl.Elf.{Ehdr}

abbrev pub stack_base : ℕ
stack_base = 0x0000_7000_0000_0000

abbrev pub stack_size : ℕ
stack_size = 64 * 1024

abbrev pub page_size : ℕ
page_size = 4096

abbrev at_null : ℕ
at_null = 0

abbrev pub at_phdr : ℕ
at_phdr = 3

abbrev pub at_phent : ℕ
at_phent = 4

abbrev pub at_phnum : ℕ
at_phnum = 5

abbrev pub at_pagesz : ℕ
at_pagesz = 6

abbrev pub at_entry : ℕ
at_entry = 9

abbrev pub at_random : ℕ
at_random = 25

abbrev pub at_execfn : ℕ
at_execfn = 31

pub data Error : Type 0 where
  stack_too_small unaligned_write not_nul_terminated : Error
  vmarea_write : ErrorCode → Error

pub record StackWriter : Type 0 where
  pub buf : List ℕ
  pub remaining : ℕ

abbrev pub new : ℕ → StackWriter
new max_size = record { buf = []; remaining = max_size }

unfoldable pub write_bytes : StackWriter → List ℕ → Fallible StackWriter Error
write_bytes w bytes = if ltb w.remaining (length bytes) then fail stack_too_small else (do
  remaining ← lift (sub w.remaining (length bytes))
  return (record { buf = w.buf ++ bytes; remaining = remaining }))

unfoldable pub write_usize : StackWriter → ℕ → Fallible StackWriter Error
unfolding write_bytes
write_usize w value = do
  aligned ← lift (is_aligned (length w.buf) 8)
  if aligned then write_bytes w (to_le_bytes 8 value) else fail unaligned_write

unfoldable pub align : StackWriter → ℕ → Fallible StackWriter Error
align w a = do
  end ← lift (align_up (length w.buf) a)
  padding_len ← lift (sub end (length w.buf))
  if ltb w.remaining padding_len then fail stack_too_small else (do
    remaining ← lift (sub w.remaining padding_len)
    return (record { buf = w.buf ++ replicate padding_len 0; remaining = remaining }))

pub record Layout : Type 0 where
  pub sp : ℕ
  pub argv_base : ℕ
  pub env_base : ℕ
  pub random_uaddr : ℕ

-- `s.ends_with(b"\0")`
unfoldable pub ends_with_nul : List ℕ → Bool
ends_with_nul [] = false
ends_with_nul (b ∷ []) = b == 0
ends_with_nul (b ∷ c ∷ rest) = ends_with_nul (c ∷ rest)

-- The loops over `argv` and `env` in `estimate_stack_size`.
unfoldable pub add_strings : ℕ → List (List ℕ) → Fallible ℕ Error
unfolding ends_with_nul
add_strings offset [] = return offset
add_strings offset (s ∷ rest) = elim (ends_with_nul s) [
  | false ↦ fail not_nul_terminated
  | true ↦ lift (add offset (length s)) >>= λ offset'. add_strings offset' rest
]

-- The size of the vectors: the first part of `estimate_stack_size`.
unfoldable pub vectors_size : ℕ → ℕ → ℕ → Fallible ℕ Error
vectors_size argc envc auxv_count = do
  argv_bytes ← lift (mul 8 argc)
  argv_end ← lift (add 8 argv_bytes)
  argv_null ← lift (add argv_end 8)
  env_bytes ← lift (mul 8 envc)
  env_end ← lift (add argv_null env_bytes)
  env_null ← lift (add env_end 8)
  auxv_half ← lift (mul 8 auxv_count)
  auxv_bytes ← lift (mul auxv_half 2)
  lift (add env_null auxv_bytes)

-- Its last part: the addresses of what has the given offsets.
unfoldable pub place_stack : ℕ → ℕ → ℕ → ℕ → Fallible Layout Error
place_stack total argv_offset env_offset random_offset =
    if ltb stack_size total then fail stack_too_small else (do
      top ← lift (add stack_base stack_size)
      sp ← lift (sub top total)
      argv_base ← lift (add sp argv_offset)
      env_base ← lift (add sp env_offset)
      random_uaddr ← lift (add sp random_offset)
      return (record {
        sp = sp;
        argv_base = argv_base;
        env_base = env_base;
        random_uaddr = random_uaddr;
      }))

unfoldable pub estimate_stack_size : List (List ℕ) → List (List ℕ) → ℕ → ℕ → Fallible Layout Error
estimate_stack_size argv env random_len auxv_count = do
  argv_offset ← vectors_size (length argv) (length env) auxv_count
  env_offset ← add_strings argv_offset argv
  random_offset ← add_strings env_offset env
  offset ← lift (add random_offset random_len)
  aligned ← lift (align_up offset 16)
  pad ← lift (sub aligned offset)
  total ← lift (add offset pad)
  place_stack total argv_offset env_offset random_offset

abbrev pub auxv_count : ℕ
auxv_count = 8

-- The auxiliary vector.
abbrev pub make_auxv : Layout → Ehdr → Option ℕ → List (ℕ × ℕ)
make_auxv layout ehdr phdr_uaddr =
    (at_random, layout.random_uaddr)
    ∷ (at_execfn, layout.argv_base)
    ∷ (at_phdr, elim phdr_uaddr [ none ↦ 0 | some uaddr ↦ uaddr ])
    ∷ (at_phent, ehdr.e_phentsize)
    ∷ (at_phnum, ehdr.e_phnum)
    ∷ (at_pagesz, page_size)
    ∷ (at_entry, ehdr.e_entry)
    ∷ (at_null, 0)
    ∷ []

-- The loops that write `argv[i]` and `envp[i]`.
unfoldable pub write_pointers : StackWriter → ℕ → List (List ℕ) → Fallible StackWriter Error
write_pointers w uaddr [] = return w
write_pointers w uaddr (s ∷ rest) = do
  w' ← write_usize w uaddr
  uaddr' ← lift (add uaddr (length s))
  write_pointers w' uaddr' rest

unfoldable pub write_auxv : StackWriter → List (ℕ × ℕ) → Fallible StackWriter Error
write_auxv w [] = return w
write_auxv w ((tag, value) ∷ rest) = do
  w' ← write_usize w tag
  w'' ← write_usize w' value
  write_auxv w'' rest

unfoldable pub write_strings : StackWriter → List (List ℕ) → Fallible StackWriter Error
write_strings w [] = return w
write_strings w (s ∷ rest) = do w' ← write_bytes w s; write_strings w' rest

-- All of `build_initial_stack` between the layout and `finish`.
unfoldable pub write_stack :
    Layout → List (ℕ × ℕ) → List (List ℕ) → List (List ℕ) → List ℕ → Fallible StackWriter Error
write_stack layout auxv argv env random = do
  w1 ← write_usize (new stack_size) (length argv)
  w2 ← write_pointers w1 layout.argv_base argv
  w3 ← write_usize w2 0
  w4 ← write_pointers w3 layout.env_base env
  w5 ← write_usize w4 0
  w6 ← write_auxv w5 auxv
  w7 ← write_strings w6 argv
  w8 ← write_strings w7 env
  w9 ← write_bytes w8 random
  align w9 16

module _ {Area : Type 0} (write : Area → ℕ → List ℕ → Result (Unit {0}) ErrorCode × Area) where
  -- `finish`
  unfoldable pub finish : StackWriter → Area → Fallible Area Error
  finish w area =
      let (reply, area') = write area w.remaining w.buf in
      elim reply [ ok _ ↦ return area' | err e ↦ fail (vmarea_write e) ]

  -- The result is the stack pointer, and the area as `write` leaves it.
  unfoldable pub build_initial_stack :
      Area → Ehdr → List (List ℕ) → List (List ℕ) → Option ℕ → List ℕ → Fallible (ℕ × Area) Error
  build_initial_stack area ehdr argv env phdr_uaddr random = do
    layout ← estimate_stack_size argv env (length random) auxv_count
    w ← write_stack layout (make_auxv layout ehdr phdr_uaddr) argv env random
    area' ← finish w area
    return (layout.sp, area')
