-- ===== src/Scheduler/Balance.antt =====
-- kernel/src/scheduler.rs and kernel/src/shared_ref.rs: the references the kernel counts.
use ftl.Base.{
  ℕ, ◌+◌, ◌-◌, ◌<◌, ◌==◌, if◌then◌else◌, Option, none, some, List, [], ◌∷◌, done, ◌≡◌, arith,
}
use ftl.Base.Word.{IsUsize}
use ftl.Scheduler.{Kernel, update, clone, drop_ref}

-- One reference to `t`, counted for `u`.
abbrev pub tally : ℕ → ℕ → ℕ
tally t u = if t == u then 1 else 0

-- The references to `u` in a queue.
unfoldable pub count : ℕ → List ℕ → ℕ
count u [] = 0
count u (t ∷ q) = tally t u + count u q

unfoldable pub count_option : ℕ → Option ℕ → ℕ
count_option u none = 0
count_option u (some t) = tally t u

-- Each counter is the references in the run queue and in `CurrentThread`, and those `held` elsewhere.
unfoldable pub IsBalanced : Kernel → (ℕ → ℕ) → Type 0
IsBalanced k held = (u : ℕ) → k.counter u ≡ count u k.runqueue + (count_option u k.current + held u)

-- One more reference held.
unfoldable pub holding : ℕ → (ℕ → ℕ) → ℕ → ℕ
holding t held u = tally t u + held u

-- What `drop_ref` leaves.
abbrev pub dropped : Kernel → ℕ → Kernel
dropped k t = record k { counter = update k.counter t (k.counter t - 1) }

abbrev pub cloned : Kernel → ℕ → Kernel
cloned k t = record k { counter = update k.counter t (k.counter t + 1) }

pub drop_ref-done : (k : Kernel) (t : ℕ) → 0 < k.counter t → drop_ref k t ≡ done (dropped k t)
unfolding drop_ref
drop_ref-done k t positive = ground arith

clone-done :
    (k : Kernel) (t : ℕ)
    → 0 < k.counter t
    → IsUsize (k.counter t + 1)
    → clone k t ≡ done (cloned k t)
unfolding clone
clone-done k t positive fits = ground arith

pub tally_self : (t : ℕ) → tally t t ≡ 1
tally_self t = ground arith

pub drop_ref-IsBalanced :
    (k : Kernel) (held : ℕ → ℕ) (t : ℕ)
    → IsBalanced k (holding t held)
    → (drop_ref k t ≡ done (dropped k t)) × IsBalanced (dropped k t) held
unfolding IsBalanced holding
drop_ref-IsBalanced k held t b = (drop_ref-done k t (ground (arith, b t)), λ u. ground (arith, b u))

pub clone-IsBalanced :
    (k : Kernel) (held : ℕ → ℕ) (t : ℕ)
    → IsBalanced k held
    → 0 < k.counter t
    → IsUsize (k.counter t + 1)
    → (clone k t ≡ done (cloned k t)) × IsBalanced (cloned k t) (holding t held)
unfolding IsBalanced holding
clone-IsBalanced k held t b positive fits = (clone-done k t positive fits, λ u. ground (arith, b u))
