-- ===== src/Thread/Context.antt =====
-- `read_context` and `write_context` of kernel/src/thread.rs, over the registers of the architecture.
use ftl.Base.{◌≡◌, ◌≢◌, refl, ap, sym, ◌∙◌, ◌⊎◌, inl, inr, true, false, Bool-cases, Result, ok, err}
use ftl.Api.ErrorCode.{ErrorCode, invalid_state}
use ftl.Arch.Registers as Saved
use ftl.Arch.Registers.{Registers, ContextKind, ContextData, write_read, read_write, write_write}
use ftl.Thread.{Mutable, State, is, runnable, blocked, terminated, context_access}

unfoldable pub read_context :
    Mutable → Registers → ContextKind → ContextData → Result (Unit {0}) ErrorCode × ContextData
read_context m t kind regs = elim (context_access m) [
  | ok _ ↦ (ok tt, Saved.read_context t kind regs)
  | err e ↦ (err e, regs)
]

unfoldable pub write_context :
    Mutable → Registers → ContextKind → ContextData → Result (Unit {0}) ErrorCode × Registers
write_context m t kind regs = elim (context_access m) [
  | ok _ ↦ (ok tt, Saved.write_context t kind regs)
  | err e ↦ (err e, t)
]

-- A blocked thread takes the registers, gives them back, and is as before when the old ones are written back.
abbrev pub Accepts : Mutable → Registers → ContextKind → ContextData → ContextData → Type 0
Accepts m t kind regs regs' =
    (m.state ≡ blocked)
    × (t' : Registers) × (write_context m t kind regs ≡ (ok tt, t'))
    × (read_context m t' kind regs ≡ (ok tt, regs))
    × (write_context m t' kind regs' ≡ write_context m t kind regs')
    × (write_context m t' kind (read_context m t kind regs).1 ≡ (ok tt, t))

abbrev pub Refuses : Mutable → Registers → ContextKind → ContextData → Type 0
Refuses m t kind regs =
    (m.state ≢ blocked)
    × (write_context m t kind regs ≡ (err invalid_state, t))
    × (read_context m t kind regs ≡ (err invalid_state, regs))

is-eq : (s : State) → (is s blocked ≡ true) → s ≡ blocked
is-eq runnable e = absurd (cc)
is-eq blocked e = refl
is-eq terminated e = absurd (cc)

is-ne : (s : State) → is s blocked ≡ false → s ≢ blocked
is-ne s e h = let e' = ap (λ (x : State). is x blocked) h in cc

module _ (m : Mutable) (t : Registers) (kind : ContextKind) (regs : ContextData) where
  write_context-blocked :
      is m.state blocked ≡ true
      → write_context m t kind regs ≡ (ok tt, Saved.write_context t kind regs)
  unfolding write_context context_access
  write_context-blocked e = rw (write_context, context_access, e) refl

  read_context-blocked :
      is m.state blocked ≡ true
      → read_context m t kind regs ≡ (ok tt, Saved.read_context t kind regs)
  unfolding read_context context_access
  read_context-blocked e = rw (read_context, context_access, e) refl

  write_context-refused :
      is m.state blocked ≡ false → write_context m t kind regs ≡ (err invalid_state, t)
  unfolding write_context context_access
  write_context-refused e = rw (write_context, context_access, e) refl

  read_context-refused :
      is m.state blocked ≡ false → read_context m t kind regs ≡ (err invalid_state, regs)
  unfolding read_context context_access
  read_context-refused e = rw (read_context, context_access, e) refl

-- The registers of a thread can be accessed exactly while it is blocked. Then what is written is read back, the last of two
-- writes counts, and writing back what was read before undoes a write; else both calls fail and change nothing.
pub context_lem :
    (m : Mutable) (t : Registers) (kind : ContextKind) (regs regs' : ContextData)
    → Accepts m t kind regs regs' ⊎ Refuses m t kind regs
context_lem m t kind regs regs' = elim (Bool-cases (is m.state blocked)) [
  | inr e ↦
      inr (
        is-ne m.state e,
        write_context-refused m t kind regs e,
        read_context-refused m t kind regs e,
      )
  | inl e ↦
      let t' : Registers = Saved.write_context t kind regs in
      let old : ContextData = Saved.read_context t kind regs in
      let read_old = read_context-blocked m t kind regs e in
      inl (
        is-eq m.state e,
        t',
        write_context-blocked m t kind regs e,
        read_context-blocked m t' kind regs e
            ∙ ap (λ (x : ContextData). (ok tt, x)) (write_read t kind regs),
        write_context-blocked m t' kind regs' e
            ∙ ap (λ (x : Registers). (ok tt, x)) (write_write t kind regs regs')
            ∙ sym (write_context-blocked m t kind regs' e),
        ap (λ (p : Result (Unit {0}) ErrorCode × ContextData). write_context m t' kind p.1) read_old
            ∙ write_context-blocked m t' kind old e
            ∙ ap (λ (x : Registers). (ok tt, x))
                (write_write t kind regs old ∙ read_write t kind regs),
      )
]
