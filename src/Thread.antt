-- ===== src/Thread.antt =====
-- kernel/src/thread.rs: the life of a thread. Each function is one section under the thread's lock;
-- what happens between the sections is in the modules below and in the scheduler.
pub mod Upcalls
pub mod Context
use ftl.Base.{
  ℕ, ◌+◌, ltb, ◌==◌, if◌then◌else◌, Bool, true, false, ◌&&◌, Option, none, some, Exec, done, panic,
  ◌>>=◌, ◌>>◌, assert, Result, ok, err,
}
use ftl.Base.Word.{add, sub}
use ftl.Api.ErrorCode.{ErrorCode, invalid_state}

pub data State : Type 0 where
  runnable blocked terminated : State

abbrev pub is : State → State → Bool
is runnable runnable = true
is blocked blocked = true
is terminated terminated = true
is _ _ = false

pub record Mutable : Type 0 where
  pub state : State
  -- the number of syscall upcalls in flight
  pub in_upcalls : ℕ

-- `Thread::new`
abbrev pub new : Mutable
new = record { state = blocked; in_upcalls = 0 }

unfoldable pub is_runnable : Mutable → Bool
is_runnable m = is m.state runnable

-- The first section of `handle_syscall`: `none` if it returns early.
unfoldable pub enter_upcall : Mutable → Exec (Option Mutable)
enter_upcall m = if is m.state terminated then done none else (do
  assert (is m.state runnable)
  in_upcalls ← add m.in_upcalls 1
  done (some (record { state = blocked; in_upcalls = in_upcalls })))

-- The second section of `handle_syscall`, with `terminate_now`.
unfoldable pub leave_upcall : Mutable → Exec (Bool × Mutable)
leave_upcall m = do
  assert (ltb 0 m.in_upcalls)
  in_upcalls ← sub m.in_upcalls 1
  done (in_upcalls == 0 && is m.state terminated, record m { in_upcalls = in_upcalls })

-- The section of `terminate`, with `terminate_now`.
unfoldable pub terminate : Mutable → Result Bool ErrorCode × Mutable
terminate m =
    if is m.state terminated
    then (err invalid_state, m)
    else (ok (m.in_upcalls == 0), record m { state = terminated })

-- The section of `unblock`; `pushed` is the result of pushing the thread to the run queue.
unfoldable pub unblock :
    Mutable → Result (Unit {0}) ErrorCode → Result (Unit {0}) ErrorCode × Mutable
unblock m pushed =
    if is m.state blocked
    then (elim pushed [ ok _ ↦ (ok tt, record m { state = runnable }) | err e ↦ (err e, m) ])
    else (err invalid_state, m)

-- The guard of `read_context` and `write_context`.
unfoldable pub context_access : Mutable → Result (Unit {0}) ErrorCode
context_access m = if is m.state blocked then ok tt else err invalid_state
