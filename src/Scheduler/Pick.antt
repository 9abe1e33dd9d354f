-- ===== src/Scheduler/Pick.antt =====
-- `return_to_user` of kernel/src/scheduler.rs: which thread it enters, and what it leaves.
use ftl.Base.{
  ℕ, ◌+◌, ◌<◌, true, false, Bool-cases, Option, none, some, List, [], ◌∷◌, Exec, done, ◌≡◌, ◌∙◌, ap,
  subst, refl, inl, inr, arith, Option-cases,
}
use ftl.Base.Word.{IsUsize}
use ftl.Thread
use ftl.Thread.{Mutable}
use ftl.Scheduler.{
  Kernel, Next, runs, idles, current_thread, clear, set_current, push_front, requeue_current, pick,
  return_to_user, drop_option, clone, clone_from,
}
use ftl.Scheduler.Balance.{
  IsBalanced, holding, dropped, cloned, drop_ref-IsBalanced, clone-IsBalanced, count, count_option,
  tally_self,
}

-- The first of the threads that can run, and the threads after it.
pub data Picks (threads : ℕ → Mutable) : List ℕ → Next → List ℕ → Type 0 where
  nobody : Picks threads [] idles []
  this :
      {t : ℕ} {q : List ℕ}
      → Thread.is_runnable (threads t) ≡ true
      → Picks threads (t ∷ q) (runs t) q
  skips :
      {t : ℕ} {q rest : List ℕ} {n : Next}
      → Thread.is_runnable (threads t) ≡ false
      → Picks threads q n rest
      → Picks threads (t ∷ q) n rest

abbrev pub current_of : Next → Option ℕ
current_of (runs t) = some t
current_of idles = none

-- What a choice among `candidates` leaves of `k`.
pub record IsSwitch (k : Kernel) (candidates : List ℕ) (held : ℕ → ℕ) (n : Next) (k' : Kernel)
    : Type 0 where
  pub picks : Picks k.thread candidates n k'.runqueue
  pub current : k'.current ≡ current_of n
  pub threads : k'.thread ≡ k.thread
  pub balanced : IsBalanced k' held

-- A run of the scheduler that ends.
abbrev pub Switches : Exec (Next × Kernel) → Kernel → List ℕ → (ℕ → ℕ) → Type 0
Switches run k candidates held =
    (n : Next) × (k' : Kernel) × (run ≡ done (n, k')) × IsSwitch k candidates held n k'

abbrev dropped_option : Kernel → Option ℕ → Kernel
dropped_option k none = k
dropped_option k (some t) = dropped k t

-- The reference that `CurrentThread` had is given up.
drop_option-IsBalanced :
    (k : Kernel) (held : ℕ → ℕ) (o : Option ℕ)
    → IsBalanced k (λ u. count_option u o + held u)
    → (drop_option k o ≡ done (dropped_option k o)) × IsBalanced (dropped_option k o) held
unfolding drop_option count_option IsBalanced holding
drop_option-IsBalanced k held none b = (refl, λ u. omega (arith, b u))
drop_option-IsBalanced k held (some t) b = drop_ref-IsBalanced k held t b

drop_option-keeps :
    (k : Kernel) (o : Option ℕ)
    → ((dropped_option k o).thread ≡ k.thread)
      × ((dropped_option k o).runqueue ≡ k.runqueue)
      × ((dropped_option k o).current ≡ k.current)
drop_option-keeps k none = (refl, refl, refl)
drop_option-keeps k (some t) = (refl, refl, refl)

-- `CurrentThread` is made `o`, and the reference it had is given up.
switch_current :
    (k : Kernel) (held : ℕ → ℕ) (o : Option ℕ)
    → IsBalanced k (λ u. count_option u o + held u)
    → let k1 = record k { current = o } in
      (drop_option k1 k.current ≡ done (dropped_option k1 k.current))
      × IsBalanced (dropped_option k1 k.current) held
unfolding IsBalanced
switch_current k held o b =
    drop_option-IsBalanced (record k { current = o }) held k.current (λ u. omega (arith, b u))

pick-nobody :
    (k : Kernel) (held : ℕ → ℕ)
    → IsBalanced (record k { runqueue = [] }) held
    → Switches (pick [] k) k [] held
unfolding pick clear IsBalanced count_option
pick-nobody k held b =
    let k0 = record k { runqueue = [] } in
    let (e, b') = switch_current k0 held none (λ u. omega (arith, b u)) in
    let (threads, queue, current) = drop_option-keeps (record k0 { current = none }) k.current in
    (
      idles,
      dropped_option (record k0 { current = none }) k.current,
      rw (e) refl,
      record { picks = rw (queue) nobody; current = current; threads = threads; balanced = b' },
    )

pick-this :
    (t : ℕ) (rest : List ℕ) (k : Kernel) (held : ℕ → ℕ)
    → IsBalanced (record k { runqueue = t ∷ rest }) held
    → Thread.is_runnable (k.thread t) ≡ true
    → Switches (pick (t ∷ rest) k) k (t ∷ rest) held
unfolding pick set_current IsBalanced count_option count
pick-this t rest k held b can =
    let k0 = record k { runqueue = rest } in
    let (e, b') = switch_current k0 held (some t) (λ u. omega (arith, b u)) in
    let (threads, queue, current) = drop_option-keeps (record k0 { current = some t }) k.current in
    (
      runs t,
      dropped_option (record k0 { current = some t }) k.current,
      rw (pick, can, set_current, e) refl,
      record { picks = rw (queue) (this can); current = current; threads = threads; balanced = b' },
    )

pick-skips :
    (t : ℕ) (rest : List ℕ) (k : Kernel) (held : ℕ → ℕ)
    → IsBalanced (record k { runqueue = t ∷ rest }) held
    → Thread.is_runnable (k.thread t) ≡ false
    → ((k1 : Kernel)
        → IsBalanced (record k1 { runqueue = rest }) held
        → Switches (pick rest k1) k1 rest held)
    → Switches (pick (t ∷ rest) k) k (t ∷ rest) held
unfolding pick IsBalanced holding count
pick-skips t rest k held b cannot go =
    let k0 = record k { runqueue = rest } in
    let (e, b') = drop_ref-IsBalanced k0 held t (λ u. omega (arith, b u)) in
    let (n, k', run, sw) = go (dropped k0 t) b' in
    (
      n,
      k',
      rw (pick, cannot, e) run,
      record {
        picks = skips cannot sw.picks;
        current = sw.current;
        threads = sw.threads;
        balanced = sw.balanced;
      },
    )

pick-Switches :
    (q : List ℕ) (k : Kernel) (held : ℕ → ℕ)
    → IsBalanced (record k { runqueue = q }) held
    → Switches (pick q k) k q held
pick-Switches [] k held b = pick-nobody k held b
pick-Switches (t ∷ rest) k held b = elim (Bool-cases (Thread.is_runnable (k.thread t))) [
  | inl can ↦ pick-this t rest k held b can
  | inr cannot ↦ pick-skips t rest k held b cannot (λ k1. pick-Switches rest k1 held)
]

-- The current thread, if there is one, and then the run queue.
abbrev pub in_front : Option ℕ → List ℕ → List ℕ
in_front none q = q
in_front (some t) q = t ∷ q

Requeues : Kernel → (ℕ → ℕ) → Type 0
Requeues k held =
    (k1 : Kernel) × (requeue_current k true ≡ done k1)
    × IsBalanced k1 held
    × (k1.thread ≡ k.thread)
    × ((n : Next) (rest : List ℕ)
        → Picks k.thread k1.runqueue n rest
        → Picks k.thread (in_front k.current k.runqueue) n rest)

current_thread-none : (k : Kernel) → k.current ≡ none → current_thread k ≡ done (none, k)
unfolding current_thread clone_from
current_thread-none k e = ap (clone_from k) e

requeue-nobody :
    (k : Kernel) (held : ℕ → ℕ) → IsBalanced k held → k.current ≡ none → Requeues k held
unfolding requeue_current current_thread clone_from Requeues
requeue-nobody k held b e = (k, rw (current_thread-none k e) refl, b, refl, λ n rest p. rw (e) p)

pub current_thread-some :
    (k k' : Kernel) (t : ℕ)
    → k.current ≡ some t
    → clone k t ≡ done k'
    → current_thread k ≡ done (some t, k')
unfolding current_thread clone_from
current_thread-some k k' t e c = ap (clone_from k) e ∙ rw (clone_from, c) refl

requeue-runnable :
    (k : Kernel) (held : ℕ → ℕ) (t : ℕ)
    → IsBalanced k held
    → k.current ≡ some t
    → 0 < k.counter t
    → IsUsize (k.counter t + 1)
    → Thread.is_runnable (k.thread t) ≡ true
    → Requeues k held
unfolding requeue_current current_thread Requeues push_front IsBalanced holding count
requeue-runnable k held t b e positive fits can =
    let (cloned_ok, b') = clone-IsBalanced k held t b positive fits in
    (
      record (cloned k t) { runqueue = t ∷ k.runqueue },
      rw (current_thread-some k (cloned k t) t e cloned_ok, can) refl,
      λ u. omega (arith, b' u),
      refl,
      λ n rest p. rw (e) p,
    )

requeue-blocked :
    (k : Kernel) (held : ℕ → ℕ) (t : ℕ)
    → IsBalanced k held
    → k.current ≡ some t
    → 0 < k.counter t
    → IsUsize (k.counter t + 1)
    → Thread.is_runnable (k.thread t) ≡ false
    → Requeues k held
unfolding requeue_current current_thread Requeues
requeue-blocked k held t b e positive fits cannot =
    let (cloned_ok, b') = clone-IsBalanced k held t b positive fits in
    let (dropped_ok, b'') = drop_ref-IsBalanced (cloned k t) held t b' in
    (
      dropped (cloned k t) t,
      rw (current_thread-some k (cloned k t) t e cloned_ok, cannot) dropped_ok,
      b'',
      refl,
      λ n rest p. rw (e) (skips cannot p),
    )

pub current-positive :
    (k : Kernel) (held : ℕ → ℕ) (t : ℕ) → IsBalanced k held → k.current ≡ some t → 0 < k.counter t
unfolding IsBalanced count_option
current-positive k held t b e = ground (arith, b t, e, tally_self t)

requeue_lem :
    (k : Kernel) (held : ℕ → ℕ)
    → IsBalanced k held
    → ((t : ℕ) → IsUsize (k.counter t + 1))
    → Requeues k held
requeue_lem k held b fits = elim (Option-cases k.current) [
  | inl e ↦ requeue-nobody k held b e
  | inr (t, e) ↦
      let positive = current-positive k held t b e in
      elim (Bool-cases (Thread.is_runnable (k.thread t))) [
        | inl can ↦ requeue-runnable k held t b e positive (fits t) can
        | inr cannot ↦ requeue-blocked k held t b e positive (fits t) cannot
      ]
]

-- From a state in which every counter is the references there are, with room in the run queue,
-- `return_to_user` does not panic. It enters the first runnable thread of the current one and the run
-- queue, which becomes the current thread, and idles only if none of them is runnable; the threads
-- after it stay queued, no thread's state changes, and every counter is again the references there are.
pub return_to_user_lem :
    (k : Kernel) (held : ℕ → ℕ)
    → IsBalanced k held
    → ((t : ℕ) → IsUsize (k.counter t + 1))
    → Switches (return_to_user k true) k (in_front k.current k.runqueue) held
unfolding return_to_user Requeues
return_to_user_lem k held b fits =
    let (k1, e, b1, same, front) = requeue_lem k held b fits in
    let (n, k', run, sw) = pick-Switches k1.runqueue k1 held b1 in
    (
      n,
      k',
      rw (e) run,
      record {
        picks =
            front n k'.runqueue (subst (λ th. Picks th k1.runqueue n k'.runqueue) same sw.picks);
        current = sw.current;
        threads = sw.threads ∙ same;
        balanced = sw.balanced;
      },
    )
