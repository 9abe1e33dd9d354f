-- ===== src/Thread/Upcalls.antt =====
-- The upcalls of one thread, under every interleaving of the processors. The `Terminated` upcall
-- frees the handler's data, so it must come once, and not while a syscall upcall runs.
use ftl.Base.{ℕ, zero, suc, ◌+◌, ◌≤◌, ◌≡◌, refl, arith, Bool, some, if◌then◌else◌, ◌==◌, done, ok}
use native.Mathlib.Decide.{ℕ_discrete}
use ftl.Thread.{terminated, Mutable, new, enter_upcall, leave_upcall, terminate, unblock}

-- A thread, the calls that have decided on `terminate_now` and have yet to make the upcall, and the
-- `Terminated` upcalls made.
pub record Life : Type 0 where
  pub thread : Mutable
  pub pending : ℕ
  pub delivered : ℕ

abbrev pub start : Life
start = record { thread = new; pending = 0; delivered = 0 }

abbrev pub decide : Bool → ℕ → ℕ
decide now n = if now then suc n else n

-- One section of some processor.
pub data Step (s : Life) : Life → Type 0 where
  enters : {m : Mutable} → enter_upcall s.thread ≡ done (some m) → Step s (record s { thread = m })
  leaves :
      {now : Bool} {m : Mutable}
      → leave_upcall s.thread ≡ done (now, m)
      → Step s (record s { thread = m; pending = decide now s.pending })
  terminates :
      {now : Bool} {m : Mutable}
      → terminate s.thread ≡ (ok now, m)
      → Step s (record s { thread = m; pending = decide now s.pending })
  unblocks :
      {m : Mutable} → unblock s.thread (ok tt) ≡ (ok tt, m) → Step s (record s { thread = m })
  delivers :
      {n : ℕ} → s.pending ≡ suc n → Step s (record s { pending = n; delivered = suc s.delivered })

pub data Reach (s : Life) : Life → Type 0 where
  here : Reach s s
  next : {t u : Life} → Reach s t → Step t u → Reach s u

-- The upcall is made or owed exactly when the thread is terminated and no syscall upcall is in flight.
pub record IsSafe (s : Life) : Type 0 where
  pub once : s.pending + s.delivered ≤ 1
  pub quiet :
      1 ≤ s.pending + s.delivered → (s.thread.state ≡ terminated) × (s.thread.in_upcalls ≡ 0)
  pub owed : s.thread.state ≡ terminated → s.thread.in_upcalls ≡ 0 → s.pending + s.delivered ≡ 1

start-IsSafe : IsSafe start
start-IsSafe = record { once = omega arith; quiet = λ h. absurd (omega arith); owed = λ e. cc }

Step-IsSafe : {s t : Life} → Step s t → IsSafe s → IsSafe t
unfolding enter_upcall leave_upcall terminate unblock
Step-IsSafe {s} (enters e) v = ground arith
Step-IsSafe {s} (leaves e) v = ground arith
Step-IsSafe {s} (terminates e) v = ground arith
Step-IsSafe {s} (unblocks e) v = ground arith
Step-IsSafe {s} (delivers e) v = record {
  once = omega (arith, v.once);
  quiet = λ h. v.quiet (omega arith);
  owed = λ a b. omega (arith, v.owed a b);
}

-- In every reachable state of a new thread the `Terminated` upcall has been made at most once, and is
-- made or owed only to a terminated thread with no syscall upcall in flight; and to such a thread it
-- is made or owed.
pub Reach-IsSafe : {s : Life} → Reach start s → IsSafe s
Reach-IsSafe here = start-IsSafe
Reach-IsSafe (next r st) = Step-IsSafe st (Reach-IsSafe r)

Reach-Step : {s t u : Life} → Step s t → Reach t u → Reach s u
Reach-Step st here = next here st
Reach-Step st (next r q) = next (Reach-Step st r) q

-- The thread after its last upcall but `k` has left.
abbrev left : Life → ℕ → Life
left s k = record s {
  thread = record { state = terminated; in_upcalls = k };
  pending = decide (k == 0) s.pending;
}

leaves_one :
    (s : Life) (k : ℕ)
    → s.thread.state ≡ terminated
    → s.thread.in_upcalls ≡ suc k
    → Step s (left s k)
unfolding leave_upcall
leaves_one s k t e = leaves (ground arith)

delivers_last :
    (s : Life) → IsSafe s → s.pending + s.delivered ≡ 1 → (t : Life) × Reach s t × (t.delivered ≡ 1)
delivers_last s v e = elim (ℕ_discrete s.pending 0) [
  | yes none_owed ↦ (s, here, omega arith)
  | no owed ↦ (
    record s { pending = 0; delivered = suc s.delivered },
    next here (delivers (omega arith)),
    omega arith,
  )
]

drain :
    (k : ℕ) (s : Life)
    → IsSafe s
    → s.thread.state ≡ terminated
    → s.thread.in_upcalls ≡ k
    → (t : Life) × Reach s t × (t.delivered ≡ 1)
drain zero s v t e = delivers_last s v (v.owed t e)
drain (suc k) s v t e =
    let st = leaves_one s k t e in
    let (u, r, d) = drain k (left s k) (Step-IsSafe st v) refl refl in (u, Reach-Step st r, d)

-- A terminated thread can always be brought to its `Terminated` upcall, by the sections that its own
-- syscall upcalls and the terminating call still have to run.
pub terminated_delivers :
    {s : Life}
    → Reach start s
    → s.thread.state ≡ terminated
    → (t : Life) × Reach s t × (t.delivered ≡ 1)
terminated_delivers {s} r t = drain s.thread.in_upcalls s (Reach-IsSafe r) t refl
