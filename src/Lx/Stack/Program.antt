-- ===== src/Lx/Stack/Program.antt =====
-- `build_initial_stack` of servers/lx/src/elf.rs as a whole.
use ftl.Base.{
  ℕ, ◌+◌, ◌-◌, ◌%◌, ◌≤◌, ◌≡◌, ◌∙◌, ap, refl, arith, Option, none, some, List, length, Result, true,
}
use ftl.Base.Word.{IsUsize}
use ftl.Base.Bytes.{bytes_at, bytes_at-IsCursor, move}
use ftl.Base.Fallible.{◌>>=◌, return}
use ftl.Api.ErrorCode.{ErrorCode}
use ftl.Elf.{Ehdr}
use ftl.Lx.Stack.{
  Layout, stack_base, stack_size, auxv_count, make_auxv, estimate_stack_size, finish,
  build_initial_stack,
}
use ftl.Lx.Stack.Writes.{concat, end_16, padding}
use ftl.Lx.Stack.Sizes.{vector_bytes, layout_of, body_bytes, all_nul, estimate_stack_size_outcome}
use ftl.Lx.Stack.Image.{image, body, length-image, length-body, write_stack_lem}
use ftl.Lx.Stack.Reading.{IsStartStack, image-IsStartStack, from_random}

-- The value of AT_PHDR.
abbrev pub phdr_value : Option ℕ → ℕ
phdr_value none = 0
phdr_value (some uaddr) = uaddr

-- What `build_initial_stack` hands to the area of the stack: `bytes`, to end where the area ends,
-- 16-byte aligned, with the random bytes where AT_RANDOM says.
pub record IsStack (layout : Layout) (bytes : List ℕ) (ehdr : Ehdr) (argv env : List (List ℕ))
    (phdr_uaddr : Option ℕ) (random : List ℕ) : Type 0 where
  pub aligned : layout.sp % 16 ≡ 0
  pub ends : layout.sp + length bytes ≡ stack_base + stack_size
  pub start : IsStartStack layout.sp bytes argv env (make_auxv layout ehdr phdr_uaddr)
  pub entropy : bytes_at bytes (layout.random_uaddr - layout.sp) (length random) ≡ random

module _ {Area : Type 0} (write : Area → ℕ → List ℕ → Result (Unit {0}) ErrorCode × Area)
    (area : Area) where
  -- For strings that end with a zero byte and fit the area, `build_initial_stack` makes one write:
  -- of bytes that hold the start of a Linux program, at the offset that lets them end with the area.
  pub build_initial_stack_lem :
      (ehdr : Ehdr) (argv env : List (List ℕ)) (phdr_uaddr : Option ℕ) (random : List ℕ)
      → all_nul argv ≡ true
      → all_nul env ≡ true
      → end_16 (body_bytes argv env (length random) auxv_count) ≤ stack_size
      → IsUsize ehdr.e_phentsize
        × IsUsize ehdr.e_phnum
        × IsUsize ehdr.e_entry
        × IsUsize (phdr_value phdr_uaddr)
      → (layout : Layout) × (bytes : List ℕ) × (build_initial_stack write area ehdr argv env
            phdr_uaddr random
          ≡ (finish write (record { buf = bytes; remaining = stack_size - length bytes }) area
              >>= λ area'. return (layout.sp, area')))
        × IsStack layout bytes ehdr argv env phdr_uaddr random
  unfolding build_initial_stack
  build_initial_stack_lem ehdr argv env phdr_uaddr random argv_nul env_nul fits values =
      let head = vector_bytes (length argv) (length env) auxv_count in
      let layout : Layout =
        layout_of head (length (concat argv)) (length (concat env)) (length random) in
      let auxv = make_auxv layout ehdr phdr_uaddr in
      let bytes = image layout auxv argv env random in
      let estimated : estimate_stack_size argv env (length random) auxv_count ≡ return layout =
        estimate_stack_size_outcome argv env (length random) auxv_count (omega arith)
        ∙ rw (argv_nul, env_nul) (ground arith) in
      let size = length-body layout auxv argv env random in
      let written =
        write_stack_lem layout auxv argv env random (rw size fits) (omega arith) (omega arith) in
      let total = length-image layout auxv argv env random ∙ ap end_16 size in
      let random_at : head + length (concat argv) + length (concat env)
          ≡ layout.random_uaddr - layout.sp =
        omega arith in
      let at_random = move (from_random layout auxv argv env random) random_at in
      (
        layout,
        bytes,
        rw (estimated, written) refl,
        record {
          aligned = omega arith;
          ends = omega (arith, total);
          start =
              image-IsStartStack layout auxv argv env random (omega arith) (omega arith) refl
                (omega arith) (omega arith);
          entropy =
              bytes_at-IsCursor random (padding (length (body layout auxv argv env random)))
                at_random;
        },
      )
