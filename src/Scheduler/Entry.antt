-- ===== src/Scheduler/Entry.antt =====
-- kernel/src/syscall.rs: the way of a system call through the kernel, with `handle_syscall` of kernel/src/thread.rs. What the
-- server does in an upcall is an argument.
use ftl.Base.{
  ℕ, ◌+◌, ◌-◌, ◌<◌, ◌==◌, if◌then◌else◌, ◌&&◌, Bool, false, Option, none, some, Exec, done, ◌≡◌,
  ◌∙◌, ap, subst, refl, arith, unwrap, ltb, ◌>>=◌, true,
}
use ftl.Base.Word.{IsUsize, add-done, sub-done}
use ftl.Thread
use ftl.Thread.{Mutable, runnable, blocked, terminated}
use ftl.Scheduler.{
  Kernel, Next, update, current_thread, clear, drop_option, drop_ref, return_to_user,
}
use ftl.Scheduler.Balance.{
  IsBalanced, holding, dropped, cloned, drop_ref-IsBalanced, drop_ref-done, clone-IsBalanced,
}
use ftl.Scheduler.Pick.{
  IsSwitch, Switches, in_front, current_thread-some, current-positive, return_to_user_lem,
}

abbrev with_thread : Kernel → ℕ → Mutable → Kernel
with_thread k t m = record k { thread = update k.thread t m }

-- `handle_syscall` of a thread, behind its second section.
unfoldable leave : (Kernel → Exec Kernel) → Kernel → ℕ → Exec Kernel
leave terminated_upcall k t = do
  (now, m) ← Thread.leave_upcall (k.thread t)
  (if now then terminated_upcall (with_thread k t m) else done (with_thread k t m))

-- `handle_syscall` of a thread.
unfoldable pub thread_syscall :
    (Kernel → Exec Kernel) → (Kernel → Exec Kernel) → Kernel → ℕ → Exec Kernel
unfolding leave
thread_syscall upcall terminated_upcall k t = do
  entered ← Thread.enter_upcall (k.thread t)
  elim entered [
    | none ↦ done k
    | some m ↦ do k' ← upcall (with_thread k t m); leave terminated_upcall k' t
  ]

unfoldable pub handle_syscall :
    (Kernel → Exec Kernel) → (Kernel → Exec Kernel) → Kernel → Bool → Exec (Next × Kernel)
unfolding thread_syscall
handle_syscall upcall terminated_upcall k room = do
  (current, k1) ← current_thread k
  t ← unwrap current
  k2 ← clear k1
  k3 ← thread_syscall upcall terminated_upcall k2 t
  k4 ← drop_ref k3 t
  return_to_user k4 room

-- The state that the upcall finds: there is no current thread, and the thread is blocked.
abbrev cleared : Kernel → ℕ → Kernel
cleared k t = dropped (record (cloned k t) { current = none }) t

abbrev pub at_upcall : Kernel → ℕ → ℕ → Kernel
at_upcall k t n = with_thread (cleared k t) t (record { state = blocked; in_upcalls = n + 1 })

-- The state behind the upcall: it has ended, and the kernel's reference to the thread is given up.
abbrev pub behind_upcall : Kernel → ℕ → Kernel
behind_upcall k t =
    dropped (with_thread k t (record (k.thread t) { in_upcalls = (k.thread t).in_upcalls - 1 })) t

enter_upcall-done :
    (n : ℕ)
    → IsUsize (n + 1)
    → Thread.enter_upcall (record { state = runnable; in_upcalls = n })
      ≡ done (some (record { state = blocked; in_upcalls = n + 1 }))
unfolding Thread.enter_upcall
enter_upcall-done n fits = let sum = add-done n 1 fits in rw (Thread.enter_upcall, sum) refl

leave_upcall-done :
    (m : Mutable)
    → 0 < m.in_upcalls
    → (m.in_upcalls - 1 == 0 && Thread.is m.state terminated) ≡ false
    → Thread.leave_upcall m ≡ done (false, record m { in_upcalls = m.in_upcalls - 1 })
unfolding Thread.leave_upcall
leave_upcall-done m positive stays =
    let some_left : ltb 0 m.in_upcalls ≡ true = ground arith in
    let less = sub-done m.in_upcalls 1 (omega arith) in
    rw (Thread.leave_upcall, some_left, less, stays) refl

leave-done :
    (terminated_upcall : Kernel → Exec Kernel) (k : Kernel) (t : ℕ)
    → 0 < (k.thread t).in_upcalls
    → ((k.thread t).in_upcalls - 1 == 0 && Thread.is (k.thread t).state terminated) ≡ false
    → leave terminated_upcall k t
      ≡ done (with_thread k t (record (k.thread t) { in_upcalls = (k.thread t).in_upcalls - 1 }))
unfolding leave
leave-done terminated_upcall k t positive stays =
    let left = leave_upcall-done (k.thread t) positive stays in rw (leave, left) refl

thread_syscall-done :
    (upcall terminated_upcall : Kernel → Exec Kernel) (k k' : Kernel) (t n : ℕ)
    → k.thread t ≡ record { state = runnable; in_upcalls = n }
    → IsUsize (n + 1)
    → upcall (with_thread k t (record { state = blocked; in_upcalls = n + 1 })) ≡ done k'
    → thread_syscall upcall terminated_upcall k t ≡ leave terminated_upcall k' t
unfolding thread_syscall
thread_syscall-done upcall terminated_upcall k k' t n is fits up =
    let entered = ap Thread.enter_upcall is ∙ enter_upcall-done n fits in
    rw (thread_syscall, entered, up) refl

clear-done : (k : Kernel) (t : ℕ) → k.current ≡ some t → clear (cloned k t) ≡ done (cleared k t)
unfolding clear drop_option
clear-done k t e =
    ap (drop_option (record (cloned k t) { current = none })) e
    ∙ drop_ref-done (record (cloned k t) { current = none }) t (ground arith)

behind-fits :
    (k : Kernel) (t : ℕ)
    → ((u : ℕ) → IsUsize (k.counter u + 1))
    → (u : ℕ) → IsUsize ((behind_upcall k t).counter u + 1)
behind-fits k t fits u = ground (arith, fits u, fits t)

-- A runnable thread makes a system call. The upcall finds it blocked, with one upcall more, no current thread, and the
-- kernel's own reference to it counted. If the upcall ends in a state in which the references are counted, the kernel's among
-- them, no thread is current, the thread still has that upcall, and it is not terminated with that as its last upcall, the
-- system call does not panic. It enters the first runnable thread of the run queue that the upcall left, and idles only if
-- none is runnable; the threads after it stay queued, and every counter is again the references there are.
pub handle_syscall_lem :
    (upcall terminated_upcall : Kernel → Exec Kernel) (k k' : Kernel) (held held' : ℕ → ℕ) (t n : ℕ)
    → IsBalanced k held
    → k.current ≡ some t
    → k.thread t ≡ record { state = runnable; in_upcalls = n }
    → IsUsize (n + 1)
    → IsUsize (k.counter t + 1)
    → upcall (at_upcall k t n) ≡ done k'
    → IsBalanced k' (holding t held')
    → k'.current ≡ none
    → (k'.thread t).in_upcalls ≡ n + 1
    → ((k'.thread t).in_upcalls - 1 == 0 && Thread.is (k'.thread t).state terminated) ≡ false
    → ((u : ℕ) → IsUsize (k'.counter u + 1))
    → Switches
        (handle_syscall upcall terminated_upcall k true)
        (behind_upcall k' t)
        k'.runqueue
        held'
unfolding handle_syscall IsBalanced
handle_syscall_lem upcall terminated_upcall k k' held held' t n b e is room room' up b' none' left
      stays fits =
    let (cloned_ok, _) = clone-IsBalanced k held t b (current-positive k held t b e) room' in
    let current = current_thread-some k (cloned k t) t e cloned_ok in
    let clear_ok = clear-done k t e in
    let one = thread_syscall-done upcall terminated_upcall (cleared k t) k' t n is room up in
    let two = leave-done terminated_upcall k' t (omega arith) stays in
    let k3 =
      with_thread k' t (record (k'.thread t) { in_upcalls = (k'.thread t).in_upcalls - 1 }) in
    let (dropped_ok, b'') = drop_ref-IsBalanced k3 held' t b' in
    let (next, k4, run, switch) =
      return_to_user_lem (behind_upcall k' t) held' b'' (behind-fits k' t fits) in
    (
      next,
      k4,
      rw (handle_syscall, current, clear_ok, one, two, dropped_ok) run,
      subst (λ (o : Option ℕ). IsSwitch (behind_upcall k' t) (in_front o k'.runqueue) held' next k4)
          none' switch,
    )
