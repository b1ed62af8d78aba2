-- ===== src/Tests/Queues.antt =====
-- Histories of one queue.
use meta_go.Prelude.{
  ℕ, ◌≡◌, ◌⊎◌, refl, Bool, true, false, List, [], ◌∷◌, ◌++◌, map, none, some, arith,
}
use meta_go.Queue.{Queue, Call, pushes, nexts, fails, init, push, next, step, run}
use meta_go.Queue.Invariant.{Inv, init-Inv, step-Inv}
use meta_go.Queue.Delivery.{delivered, pushed, run-IsOrdered, answers, last_word, run-drains}
use meta_go.Queue.Promises.{askers, asked, run-asked, run-ended-asked}

abbrev overflow : ℕ → ℕ
overflow n = n

abbrev truthy : ℕ → Bool
truthy n = true

abbrev calls : List (Call ℕ ℕ)
calls = pushes 1 ∷ nexts 7 ∷ nexts 8 ∷ nexts 9 ∷ pushes 2 ∷ fails 5 ∷ pushes 3 ∷ nexts 10 ∷ []

run-IsOrdered_example :
    let r = run overflow truthy (init 2) calls in
    (lost : List ℕ) × ((init {V = ℕ} {E = ℕ} 2).values ++ pushed calls
      ≡ delivered r.1 ++ (r.0.values ++ lost))
    × ((lost ≡ []) ⊎ (r.0.ended ≡ true))
unfolding init
run-IsOrdered_example = run-IsOrdered overflow truthy (init 2) calls (init-Inv 2) refl

run-asked_example :
    askers (run overflow truthy (init 2) calls).1 ++ (run overflow truthy (init 2) calls).0.waiters
    ≡ (init {V = ℕ} {E = ℕ} 2).waiters ++ asked calls
run-asked_example = run-asked overflow truthy (init 2) calls (init-Inv 2)

run-ended-asked_example :
    askers (run overflow truthy (init 2) calls).1 ≡ (init {V = ℕ} {E = ℕ} 2).waiters ++ asked calls
unfolding run step next push init
run-ended-asked_example = run-ended-asked overflow truthy (init 2) calls (init-Inv 2) ended
  where
    ended : (run overflow truthy (init {V = ℕ} {E = ℕ} 2) calls).0.ended ≡ true
    ended = refl

-- A queue that has ended with a buffer of two events and an error.
abbrev failed : Queue ℕ ℕ
failed = record { values = 1 ∷ 2 ∷ []; waiters = []; error = some 5; ended = true; limit = 2 }

run-drains_example :
    (run overflow truthy failed (map nexts (7 ∷ 8 ∷ 9 ∷ 10 ∷ []))).1
    ≡ answers (last_word truthy failed) failed.values (7 ∷ 8 ∷ 9 ∷ 10 ∷ [])
run-drains_example = run-drains overflow truthy failed (7 ∷ 8 ∷ 9 ∷ 10 ∷ []) refl

-- Two events wait, the next one is one too many.
abbrev full : Queue ℕ ℕ
full = record { values = 1 ∷ 2 ∷ []; waiters = []; error = none; ended = false; limit = 2 }

full-Inv : Inv full
full-Inv = ground arith

step-Inv_example : Inv (step overflow truthy full (pushes 3)).0
step-Inv_example = step-Inv overflow truthy full (pushes 3) full-Inv
