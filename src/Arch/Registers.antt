-- ===== src/Arch/Registers.antt =====
-- kernel/src/arch/x64/thread.rs: the saved registers of a thread and their views, with the types of
-- libs/rust/ftl_api/src/thread.rs. All numbers are u64.
use ftl.Base.{ℕ, ◌≡◌, refl}

pub data ContextKind : Type 0 where
  syscall_args sysret init_regs fsbase : ContextKind

pub record SyscallArgs : Type 0 where
  pub n : ℕ
  pub arg0 : ℕ
  pub arg1 : ℕ
  pub arg2 : ℕ
  pub arg3 : ℕ
  pub arg4 : ℕ
  pub arg5 : ℕ

-- `ContextData` is a union, and this is its largest member: the first word is also `retval`, `pc` and `base`, and the
-- second is `sp`.
abbrev pub ContextData : Type 0
ContextData = SyscallArgs

abbrev pub gdt_user_ds : ℕ
gdt_user_ds = 35

abbrev pub gdt_user_cs : ℕ
gdt_user_cs = 43

pub record Registers : Type 0 where
  pub rip : ℕ
  pub cs : ℕ
  pub rflags : ℕ
  pub rsp : ℕ
  pub ss : ℕ
  pub rax : ℕ
  pub rbx : ℕ
  pub rcx : ℕ
  pub rdx : ℕ
  pub rsi : ℕ
  pub rdi : ℕ
  pub rbp : ℕ
  pub r8 : ℕ
  pub r9 : ℕ
  pub r10 : ℕ
  pub r11 : ℕ
  pub r12 : ℕ
  pub r13 : ℕ
  pub r14 : ℕ
  pub r15 : ℕ
  pub gsbase : ℕ
  pub fsbase : ℕ

-- `Thread::new`
abbrev pub new : Registers
new = record {
  rip = 0;
  cs = gdt_user_cs;
  rflags = 0x202;
  rsp = 0;
  ss = gdt_user_ds;
  rax = 0;
  rbx = 0;
  rcx = 0;
  rdx = 0;
  rsi = 0;
  rdi = 0;
  rbp = 0;
  r8 = 0;
  r9 = 0;
  r10 = 0;
  r11 = 0;
  r12 = 0;
  r13 = 0;
  r14 = 0;
  r15 = 0;
  gsbase = 0;
  fsbase = 0;
}

unfoldable pub read_context : Registers → ContextKind → ContextData → ContextData
read_context t syscall_args regs = record {
  n = t.rax;
  arg0 = t.rdi;
  arg1 = t.rsi;
  arg2 = t.rdx;
  arg3 = t.r10;
  arg4 = t.r8;
  arg5 = t.r9;
}
read_context t sysret regs = record regs { n = t.rax }
read_context t init_regs regs = record regs { n = t.rip; arg0 = t.rsp }
read_context t fsbase regs = record regs { n = t.fsbase }

unfoldable pub write_context : Registers → ContextKind → ContextData → Registers
write_context t syscall_args regs = record t {
  rax = regs.n;
  rdi = regs.arg0;
  rsi = regs.arg1;
  rdx = regs.arg2;
  r10 = regs.arg3;
  r8 = regs.arg4;
  r9 = regs.arg5;
}
write_context t sysret regs = record t { rax = regs.n }
write_context t init_regs regs = record t { rip = regs.n; rsp = regs.arg0 }
write_context t fsbase regs = record t { fsbase = regs.n }

-- Reading gives what was written last, over the rest of the old data; writing what was read changes nothing; and the last
-- of two writes counts.
pub write_read :
    (t : Registers) (kind : ContextKind) (regs : ContextData)
    → read_context (write_context t kind regs) kind regs ≡ regs
unfolding read_context write_context
write_read t syscall_args regs = refl
write_read t sysret regs = refl
write_read t init_regs regs = refl
write_read t fsbase regs = refl

pub read_write :
    (t : Registers) (kind : ContextKind) (regs : ContextData)
    → write_context t kind (read_context t kind regs) ≡ t
unfolding read_context write_context
read_write t syscall_args regs = refl
read_write t sysret regs = refl
read_write t init_regs regs = refl
read_write t fsbase regs = refl

pub write_write :
    (t : Registers) (kind : ContextKind) (regs regs' : ContextData)
    → write_context (write_context t kind regs) kind regs' ≡ write_context t kind regs'
unfolding write_context
write_write t syscall_args regs regs' = refl
write_write t sysret regs regs' = refl
write_write t init_regs regs regs' = refl
write_write t fsbase regs regs' = refl
