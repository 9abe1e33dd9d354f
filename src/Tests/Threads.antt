-- ===== src/Tests/Threads.antt =====
-- A thread that is terminated while it makes a system call, and a run queue with a blocked thread.
use ftl.Base.{ℕ, ◌+◌, ◌≡◌, refl, arith, true, some, [], ◌∷◌, if◌then◌else◌, ◌==◌, Exec, done, ◌>>=◌}
use ftl.Base.Word.{IsUsize}
use ftl.Thread.{Mutable, runnable, blocked, terminated, enter_upcall, unblock, terminate}
use ftl.Thread.Upcalls.{
  Life, start, enters, terminates, unblocks, Reach, here, next, IsSafe, Reach-IsSafe,
  terminated_delivers,
}
use ftl.Scheduler
use ftl.Scheduler.{Kernel, update, return_to_user}
use ftl.Scheduler.Entry.{handle_syscall, at_upcall, behind_upcall, handle_syscall_lem}
use ftl.Scheduler.Balance.{IsBalanced, holding, count, count_option}
use ftl.Api.Handle.{authorize}
use ftl.Scheduler.Handles.{Unblocks, thread_unblock, into_handle, reply_of, thread_unblock_lem}
use ftl.Scheduler.Pick.{Switches, in_front, return_to_user_lem}

abbrev cut_short : Life
cut_short = record {
  thread = record { state = terminated; in_upcalls = 1 };
  pending = 0;
  delivered = 0;
}

Reach-cut_short : Reach start cut_short
unfolding enter_upcall unblock terminate
Reach-cut_short = next (next (next here (unblocks refl)) (enters refl)) (terminates refl)

Reach-IsSafe_example : IsSafe cut_short
Reach-IsSafe_example = Reach-IsSafe Reach-cut_short

terminated_delivers_example : (t : Life) × Reach cut_short t × (t.delivered ≡ 1)
terminated_delivers_example = terminated_delivers Reach-cut_short refl

-- Thread 10 runs and has blocked; 20 is blocked in the queue, 30 is runnable. The creator of each
-- thread keeps a reference.
abbrev threads : ℕ → Mutable
threads t =
    if t == 30
    then record { state = runnable; in_upcalls = 0 }
    else record { state = blocked; in_upcalls = 1 }

abbrev kernel : Kernel
unfolding count count_option
kernel = record {
  thread = threads;
  counter = λ u. count u (20 ∷ 30 ∷ []) + (count_option u (some 10) + 1);
  runqueue = 20 ∷ 30 ∷ [];
  current = some 10;
}

return_to_user_lem_example :
    Switches (return_to_user kernel true) kernel (in_front kernel.current kernel.runqueue) (λ u. 1)
unfolding IsBalanced count count_option kernel
return_to_user_lem_example = return_to_user_lem kernel (λ u. 1) (λ u. refl) (λ u. ground arith)

-- Thread 10 makes a system call, and the server unblocks it in the upcall.
abbrev calling : Kernel
calling = record kernel {
  thread = λ t. if t == 10 then record { state = runnable; in_upcalls = 0 } else threads t;
}

abbrev resume : Kernel → Exec Kernel
resume k = do (_, k') ← Scheduler.unblock k true 10; done k'

abbrev resumed : Kernel
resumed =
    let k = at_upcall calling 10 0 in
    record k {
      thread = update k.thread 10 (record { state = runnable; in_upcalls = 1 });
      counter = update k.counter 10 3;
      runqueue = 20 ∷ 30 ∷ 10 ∷ [];
    }

resume_run : resume (at_upcall calling 10 0) ≡ done resumed
unfolding Scheduler.unblock Scheduler.clone Scheduler.push_back unblock count count_option kernel
resume_run = refl

resumed-IsBalanced : IsBalanced resumed (holding 10 (λ u. 1))
unfolding IsBalanced holding count count_option kernel
resumed-IsBalanced u = ground arith

resumed_room : (u : ℕ) → IsUsize (resumed.counter u + 1)
unfolding count count_option kernel
resumed_room u = ground arith

handle_syscall_lem_example :
    Switches
      (handle_syscall resume done calling true)
      (behind_upcall resumed 10)
      (20 ∷ 30 ∷ 10 ∷ [])
      (λ u. 1)
unfolding IsBalanced count count_option kernel
handle_syscall_lem_example =
    handle_syscall_lem resume done calling resumed (λ u. 1) (λ u. 1) 10 0 (λ u. refl) refl refl
      (omega arith) (omega arith) resume_run resumed-IsBalanced refl refl refl resumed_room

-- A server with a handle of thread 20 unblocks it.
thread_unblock_lem_example :
    Unblocks
      (thread_unblock 8 5 kernel true (into_handle 8 5 3 20))
      (reply_of (authorize (into_handle 8 5 3 20) 2) true true)
      kernel
      (λ u. 1)
      20
unfolding IsBalanced count count_option kernel
thread_unblock_lem_example =
    thread_unblock_lem 8 5 kernel (λ u. 1) true 20 3 (λ u. refl) (omega arith) (omega arith)
