-- ===== src/Scheduler.antt =====
-- kernel/src/scheduler.rs, `CurrentThread` of kernel/src/thread.rs, and clone and drop of
-- kernel/src/shared_ref.rs, on one processor: who runs next, and who holds references to a thread. A
-- thread is named by the address of its object.
pub mod Pick
pub mod Balance
pub mod Entry
pub mod Handles
use ftl.Base.{
  ℕ, ◌+◌, ◌-◌, ◌%◌, ltb, ◌==◌, if◌then◌else◌, Bool, true, false, Option, none, some, List, [], ◌∷◌,
  ◌++◌, Exec, done, panic, ◌>>=◌, ◌>>◌, assert, Result, ok, err,
}
use ftl.Base.Word.{usize_mod}
use ftl.Api.ErrorCode.{ErrorCode, out_of_memory, invalid_state}
use ftl.Thread
use ftl.Thread.{Mutable}

pub record Kernel : Type 0 where
  pub thread : ℕ → Mutable
  -- `RefCounted::counter` of each thread
  pub counter : ℕ → ℕ
  pub runqueue : List ℕ
  pub current : Option ℕ

abbrev pub update {ℓ} : {A : Type ℓ} → (ℕ → A) → ℕ → A → ℕ → A
update f t v u = if t == u then v else f u

-- `SharedRef::clone`. The atomic addition wraps.
unfoldable pub clone : Kernel → ℕ → Exec Kernel
clone k t = do
  assert (ltb 0 (k.counter t))
  done (record k { counter = update k.counter t ((k.counter t + 1) % usize_mod) })

-- `SharedRef::drop`. At zero the object is freed: a counter of zero stands for freed memory.
unfoldable pub drop_ref : Kernel → ℕ → Exec Kernel
drop_ref k t = do
  assert (ltb 0 (k.counter t))
  done (record k { counter = update k.counter t (k.counter t - 1) })

drop_option : Kernel → Option ℕ → Exec Kernel
unfolding drop_ref
drop_option k none = done k
drop_option k (some t) = drop_ref k t

-- `CurrentThread::thread`: the new reference goes to the caller.
unfoldable pub clone_from : Kernel → Option ℕ → Exec (Option ℕ × Kernel)
unfolding clone
clone_from k none = done (none, k)
clone_from k (some t) = do k' ← clone k t; done (some t, k')

unfoldable pub current_thread : Kernel → Exec (Option ℕ × Kernel)
unfolding clone_from
current_thread k = clone_from k k.current

-- `CurrentThread::clear`
unfoldable pub clear : Kernel → Exec Kernel
unfolding drop_option
clear k = drop_option (record k { current = none }) k.current

-- `CurrentThread::update`: the caller's reference moves in.
unfoldable pub set_current : Kernel → ℕ → Exec Kernel
unfolding drop_option
set_current k next = drop_option (record k { current = some next }) k.current

-- `Scheduler::push_back` and `push_front`; `room` is what `try_reserve` answers. The caller's
-- reference moves in, and on the error path it is dropped.
unfoldable pub push_back : Kernel → Bool → ℕ → Exec (Result (Unit {0}) ErrorCode × Kernel)
unfolding drop_ref
push_back k room t =
    if room
    then done (ok tt, record k { runqueue = k.runqueue ++ t ∷ [] })
    else (do k' ← drop_ref k t; done (err out_of_memory, k'))

unfoldable pub push_front : Kernel → Bool → ℕ → Exec (Result (Unit {0}) ErrorCode × Kernel)
unfolding drop_ref
push_front k room t =
    if room
    then done (ok tt, record k { runqueue = t ∷ k.runqueue })
    else (do k' ← drop_ref k t; done (err out_of_memory, k'))

-- `Thread::unblock`
unfoldable pub unblock : Kernel → Bool → ℕ → Exec (Result (Unit {0}) ErrorCode × Kernel)
unfolding clone push_back
unblock k room t =
    if Thread.is (k.thread t).state Thread.blocked
    then (do
      k' ← clone k t
      (pushed, k'') ← push_back k' room t
      let (reply, m) = Thread.unblock (k''.thread t) pushed
      done (reply, record k'' { thread = update k''.thread t m }))
    else done (err invalid_state, k)

-- What `return_to_user` ends in: user code of a thread, or the idle loop.
pub data Next : Type 0 where
  runs : ℕ → Next
  idles : Next

-- The first part of `return_to_user`: a current thread that can run goes to the front of the queue.
unfoldable pub requeue_current : Kernel → Bool → Exec Kernel
unfolding current_thread push_front drop_ref
requeue_current k room = do
  (current, k') ← current_thread k
  elim current [
    | none ↦ done k'
    | some t ↦
        if Thread.is_runnable (k'.thread t)
        then (do
          (pushed, k'') ← push_front k' room t
          elim pushed [ ok _ ↦ done k'' | err _ ↦ panic ])
        else drop_ref k' t
  ]

-- The loop: threads that were blocked while in the queue are dropped from it.
unfoldable pub pick : List ℕ → Kernel → Exec (Next × Kernel)
unfolding clear set_current drop_ref
pick [] k = do k' ← clear (record k { runqueue = [] }); done (idles, k')
pick (t ∷ rest) k = elim (Thread.is_runnable (k.thread t)) [
  | true ↦ do k' ← set_current (record k { runqueue = rest }) t; done (runs t, k')
  | false ↦ do k' ← drop_ref (record k { runqueue = rest }) t; pick rest k'
]

unfoldable pub return_to_user : Kernel → Bool → Exec (Next × Kernel)
unfolding requeue_current pick
return_to_user k room = do k' ← requeue_current k room; pick k'.runqueue k'
