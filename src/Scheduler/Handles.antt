-- ===== src/Scheduler/Handles.antt =====
-- Handles of threads: the handles of kernel/src/shared_ref.rs, and the calls of a server that unblock and destroy a thread
-- (kernel/src/server.rs). `value_offset` is the place of the value in a `RefCounted`, and `thread_type` the type's `TypeId`.
use ftl.Base.{
  ℕ, ◌+◌, ◌-◌, ◌<◌, ◌==◌, if◌then◌else◌, Bool, Bool-cases, true, false, List, [], ◌∷◌, ◌++◌, Exec,
  done, ◌≡◌, ap, sym, subst, refl, arith, ◌>>=◌, Result, ok, err, ◌⊎◌, inl, inr,
}
use ftl.Base.Word.{IsUsize}
use ftl.Api.ErrorCode.{ErrorCode, invalid_type, not_allowed, out_of_memory, invalid_state}
use ftl.Api.Handle as Right
use ftl.Api.Handle.{Handle, is_type, authorize}
use ftl.Thread
use ftl.Thread.{blocked, runnable}
use ftl.Scheduler.{Kernel, update, clone, drop_ref, push_back, unblock}
use ftl.Scheduler.Balance.{
  IsBalanced, holding, dropped, cloned, count, tally, drop_ref-IsBalanced, clone-IsBalanced,
}

module _ (value_offset thread_type : ℕ) where
  -- `into_raw`, which is `as_ptr`, and `from_raw`
  abbrev into_raw : ℕ → ℕ
  into_raw ref = ref + value_offset

  abbrev from_raw : ℕ → ℕ
  from_raw ptr = ptr - value_offset

  unfoldable clone_from_raw : Kernel → ℕ → Exec (ℕ × Kernel)
  clone_from_raw k ptr = do k' ← clone k (from_raw ptr); done (from_raw ptr, k')

  abbrev pub into_handle : ℕ → ℕ → Handle
  into_handle right ref = record { raw = into_raw ref; type_id = thread_type; right = right }

  unfoldable from_borrowed_handle : Kernel → Handle → ℕ → Exec (Result ℕ ErrorCode × Kernel)
  unfolding clone_from_raw
  from_borrowed_handle k handle action =
      if is_type handle thread_type
      then (if authorize handle action
          then (do (ref, k') ← clone_from_raw k handle.raw; done (ok ref, k'))
          else done (err not_allowed, k))
      else done (err invalid_type, k)

  -- `thread_unblock`: the reference is dropped at the end.
  pub thread_unblock : Kernel → Bool → Handle → Exec (Result (Unit {0}) ErrorCode × Kernel)
  thread_unblock k room handle = do
    (ref, k1) ← from_borrowed_handle k handle Right.write
    elim ref [
      | err e ↦ done (err e, k1)
      | ok t ↦ do (reply, k2) ← unblock k1 room t; k3 ← drop_ref k2 t; done (reply, k3)
    ]

  from_moved_handle : Handle → Result ℕ ErrorCode
  from_moved_handle handle =
      if is_type handle thread_type then ok (from_raw handle.raw) else err invalid_type

  -- `thread_destroy`
  thread_destroy : Kernel → Handle → Exec (Result (Unit {0}) ErrorCode × Kernel)
  thread_destroy k handle = elim (from_moved_handle handle) [
    | err e ↦ done (err e, k)
    | ok t ↦ do k' ← drop_ref k t; done (ok tt, k')
  ]

  from_moved-into_handle : (right t : ℕ) → from_moved_handle (into_handle right t) ≡ ok t
  unfolding from_moved_handle is_type
  from_moved-into_handle right t =
      let self : (thread_type == thread_type) ≡ true = ground arith in
      let there : t + value_offset - value_offset ≡ t = omega arith in
      rw (from_moved_handle, self, there) refl

  -- The handle's reference is given up.
  thread_destroy-IsBalanced :
      (k : Kernel) (held : ℕ → ℕ) (right t : ℕ)
      → IsBalanced k (holding t held)
      → (thread_destroy k (into_handle right t) ≡ done (ok tt, dropped k t))
        × IsBalanced (dropped k t) held
  unfolding thread_destroy
  thread_destroy-IsBalanced k held right t b =
      let (dropped_ok, b') = drop_ref-IsBalanced k held t b in
      let moved = from_moved-into_handle right t in
      (rw (thread_destroy, moved, dropped_ok) refl, b')

  from_borrowed-ok :
      (k : Kernel) (t right : ℕ)
      → clone k t ≡ done (cloned k t)
      → authorize (into_handle right t) Right.write ≡ true
      → from_borrowed_handle k (into_handle right t) Right.write ≡ done (ok t, cloned k t)
  unfolding from_borrowed_handle clone_from_raw is_type
  from_borrowed-ok k t right c may =
      let self : (thread_type == thread_type) ≡ true = ground arith in
      let there : t + value_offset - value_offset ≡ t = omega arith in
      rw (from_borrowed_handle, self, may, clone_from_raw, there, c) refl

  from_borrowed-refused :
      (k : Kernel) (t right : ℕ)
      → authorize (into_handle right t) Right.write ≡ false
      → from_borrowed_handle k (into_handle right t) Right.write ≡ done (err not_allowed, k)
  unfolding from_borrowed_handle is_type
  from_borrowed-refused k t right may =
      let self : (thread_type == thread_type) ≡ true = ground arith in
      rw (from_borrowed_handle, self, may) refl

-- One more thread at the back of the queue.
count-back : (u t : ℕ) (q : List ℕ) → count u (q ++ t ∷ []) ≡ tally t u + count u q
unfolding count
count-back u t [] = refl
count-back u t (x ∷ q) = omega (arith, count-back u t q)

-- What `unblock` answers to the caller, who holds a reference.
abbrev pub Unblocks :
    Exec (Result (Unit {0}) ErrorCode × Kernel)
    → Result (Unit {0}) ErrorCode
    → Kernel
    → (ℕ → ℕ)
    → ℕ
    → Type 0
Unblocks run reply k held t =
    (k' : Kernel) × (run ≡ done (reply, k'))
    × IsBalanced k' held
    × (((reply ≡ ok tt)
          × (k'.runqueue ≡ k.runqueue ++ t ∷ [])
          × (Thread.is_runnable (k'.thread t) ≡ true))
        ⊎ (((e : ErrorCode) × (reply ≡ err e))
            × (k'.runqueue ≡ k.runqueue)
            × (k'.thread t ≡ k.thread t)))

update_self : (k : Kernel) (t : ℕ) (m : Thread.Mutable) → update k.thread t m t ≡ m
update_self k t m = ground arith

unblock-other :
    (k : Kernel) (held : ℕ → ℕ) (room : Bool) (t : ℕ)
    → IsBalanced k held
    → Thread.is (k.thread t).state blocked ≡ false
    → Unblocks (unblock k room t) (err invalid_state) k held t
unfolding unblock
unblock-other k held room t b other =
    (k, rw (unblock, other) refl, b, inr ((invalid_state, refl), refl, refl))

unblock-full :
    (k : Kernel) (held : ℕ → ℕ) (t : ℕ)
    → IsBalanced k held
    → 0 < k.counter t
    → IsUsize (k.counter t + 1)
    → Thread.is (k.thread t).state blocked ≡ true
    → Unblocks (unblock k false t) (err out_of_memory) k held t
unfolding unblock push_back Thread.unblock IsBalanced holding
unblock-full k held t b positive fits is =
    let (cloned_ok, b1) = clone-IsBalanced k held t b positive fits in
    let (dropped_ok, b2) = drop_ref-IsBalanced (cloned k t) held t b1 in
    (
      record (dropped (cloned k t) t) { thread = update k.thread t (k.thread t) },
      rw (unblock, is, cloned_ok, push_back, dropped_ok, Thread.unblock, is) refl,
      b2,
      inr ((out_of_memory, refl), refl, update_self k t (k.thread t)),
    )

unblock-room :
    (k : Kernel) (held : ℕ → ℕ) (t : ℕ)
    → IsBalanced k held
    → 0 < k.counter t
    → IsUsize (k.counter t + 1)
    → Thread.is (k.thread t).state blocked ≡ true
    → Unblocks (unblock k true t) (ok tt) k held t
unfolding unblock push_back Thread.unblock IsBalanced holding Thread.is_runnable
unblock-room k held t b positive fits is =
    let (cloned_ok, b1) = clone-IsBalanced k held t b positive fits in
    (
      record (cloned k t) {
        runqueue = k.runqueue ++ t ∷ [];
        thread = update k.thread t (record (k.thread t) { state = runnable });
      },
      rw (unblock, is, cloned_ok, push_back, Thread.unblock, is) refl,
      λ u. omega (arith, b1 u, count-back u t k.runqueue),
      inl (
        refl,
        refl,
        ap Thread.is_runnable (update_self k t (record (k.thread t) { state = runnable })),
      ),
    )

counter-positive :
    (k : Kernel) (held : ℕ → ℕ) (t : ℕ) → IsBalanced k held → 0 < held t → 0 < k.counter t
unfolding IsBalanced
counter-positive k held t b owned = omega (arith, b t)

cloned_counter : (k : Kernel) (t : ℕ) → (cloned k t).counter t ≡ k.counter t + 1
cloned_counter k t = ground arith

-- The reply, from whether the handle may, whether the thread is blocked and whether the run queue has room.
unfoldable pub reply_of : Bool → Bool → Bool → Result (Unit {0}) ErrorCode
reply_of false is_blocked room = err not_allowed
reply_of true false room = err invalid_state
reply_of true true false = err out_of_memory
reply_of true true true = ok tt

unblock_reply :
    (k : Kernel) (held : ℕ → ℕ) (room : Bool) (t : ℕ)
    → IsBalanced k held
    → 0 < k.counter t
    → IsUsize (k.counter t + 1)
    → Unblocks
        (unblock k room t)
        (reply_of true (Thread.is (k.thread t).state blocked) room)
        k
        held
        t
unfolding reply_of
unblock_reply k held room t b positive fits =
    elim (Bool-cases (Thread.is (k.thread t).state blocked)) [
      | inr other ↦ rw (other) (unblock-other k held room t b other)
      | inl is ↦ elim (Bool-cases room) [
        | inl yes_room ↦ rw (is, yes_room) (unblock-room k held t b positive fits is)
        | inr full ↦ rw (is, full) (unblock-full k held t b positive fits is)
      ]
    ]

-- A server unblocks a thread by a handle of it. If the references are counted and the handle's is among them, the call does
-- not panic. The reply says whether the handle may write, the thread was blocked and the run queue had room; if all hold, the
-- thread is runnable and at the back of the run queue, and otherwise neither the queue nor the thread's state has
-- changed. Every counter is again the references there are, so that the handle keeps its own.
pub thread_unblock_lem :
    (value_offset thread_type : ℕ) (k : Kernel) (held : ℕ → ℕ) (room : Bool) (t right : ℕ)
    → IsBalanced k held
    → 0 < held t
    → IsUsize (k.counter t + 2)
    → let handle = into_handle value_offset thread_type right t in
      Unblocks
        (thread_unblock value_offset thread_type k room handle)
        (reply_of (authorize handle Right.write) (Thread.is (k.thread t).state blocked) room)
        k
        held
        t
unfolding thread_unblock reply_of
thread_unblock_lem value_offset thread_type k held room t right b owned fits =
    let handle : Handle = into_handle value_offset thread_type right t in
    let Answers : Bool → Type 0 = λ may.
      Unblocks (thread_unblock value_offset thread_type k room handle)
        (reply_of may (Thread.is (k.thread t).state blocked) room) k held t in
    elim (Bool-cases (authorize handle Right.write)) [
      | inr may_not ↦
          let run = from_borrowed-refused value_offset thread_type k t right may_not in
          subst Answers (sym may_not)
            (k, rw (thread_unblock, run) refl, b, inr ((not_allowed, refl), refl, refl))
      | inl may ↦
          let positive : 0 < k.counter t = counter-positive k held t b owned in
          let (cloned_ok, b1) = clone-IsBalanced k held t b positive (omega arith) in
          let run = from_borrowed-ok value_offset thread_type k t right cloned_ok may in
          let bound = cloned_counter k t in
          let (k2, run2, b2, outcome) =
            unblock_reply (cloned k t) (holding t held) room t b1 (omega arith) (omega arith) in
          let (dropped_ok, b3) = drop_ref-IsBalanced k2 held t b2 in
          subst Answers (sym may)
            (dropped k2 t, rw (thread_unblock, run, run2, dropped_ok) refl, b3, outcome)
    ]
