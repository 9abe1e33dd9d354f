-- ===== src/Tests/Structures.antt =====
-- The utilities and the boot-time allocator on concrete inputs.
use ftl.Base.{ℕ, ◌≡◌, arith, List, [], ◌∷◌, done}
use ftl.Bump.{BumpAllocator}
use ftl.Bump.Disjoint.{Request}
use ftl.ArrayVec
use ftl.ArrayVec.Bounded
use ftl.ArrayVec.Bounded.{Call, answers}
use ftl.ArrayVec.Refine.{run, run_refines}

abbrev region : BumpAllocator
region = record { start = 0x1000; next = 0x2080 }

abbrev sizes : List Request
sizes = (0x30, 6) ∷ (0x1000, 12) ∷ (5, 0) ∷ []

abbrev calls : List (Call ℕ)
calls =
    Bounded.push 4
    ∷ Bounded.extend (5 ∷ 6 ∷ [])
    ∷ Bounded.push 7
    ∷ Bounded.get 1
    ∷ Bounded.pop
    ∷ Bounded.slice
    ∷ Bounded.clear
    ∷ []

run_refines_example : run 3 (ArrayVec.new 3) calls ≡ done (answers 3 [] calls)
run_refines_example =
    run_refines 3 calls (omega arith) (tt, (omega arith, (tt, (tt, (tt, (tt, (tt, tt)))))))
