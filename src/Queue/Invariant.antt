-- ===== src/Queue/Invariant.antt =====
-- EventQueue: what every history of calls keeps.
use meta_go.Prelude.{
  ℕ, ◌≤◌, ◌≡◌, ◌⊎◌, inl, inr, Bool, true, false, List, [], ◌∷◌, none, arith, length, length-append,
}
use meta_go.Queue.{
  Queue, Call, pushes, nexts, closes, fails, init, close, fail, push, next, step, run,
}

pub record Inv {V E : Type 0} (q : Queue V E) : Type 0 where
  pub one_side : (q.values ≡ []) ⊎ (q.waiters ≡ [])
  pub settled : (q.ended ≡ false) ⊎ (q.waiters ≡ [])
  pub bounded : length q.values ≤ q.limit
  pub open_clean : (q.ended ≡ true) ⊎ (q.error ≡ none)

pub ended-waiters : {V E : Type 0} (q : Queue V E) → Inv q → q.ended ≡ true → q.waiters ≡ []
ended-waiters q v h = elim v.settled [ inl o ↦ cc | inr e ↦ e ]

module _ {V E : Type 0} where
  pub init-Inv : (limit : ℕ) → Inv (init {V = V} {E = E} limit)
  unfolding init
  init-Inv limit = ground arith

  pub close-Inv : (q : Queue V E) → Inv q → Inv (close q).0
  unfolding close
  close-Inv q v = ground arith

  pub fail-Inv : (e : E) (q : Queue V E) → Inv q → Inv (fail e q).0
  unfolding fail
  fail-Inv e q v = ground arith

module _ {V E : Type 0} (overflow : ℕ → E) (truthy : E → Bool) where
  push-Inv : (x : V) (q : Queue V E) → Inv q → Inv (push overflow x q).0
  unfolding push
  push-Inv x q v = ground (arith, length-append q.values (x ∷ []))

  next-Inv : (w : ℕ) (q : Queue V E) → Inv q → Inv (next truthy w q).0
  unfolding next
  next-Inv w q v = ground arith

  -- Every call keeps the invariant: never buffered events and waiting readers at once, no waiting
  -- reader after the end, no more buffered events than the limit, and no error before the end.
  pub step-Inv : (q : Queue V E) (c : Call V E) → Inv q → Inv (step overflow truthy q c).0
  unfolding step
  step-Inv q (pushes x) v = push-Inv x q v
  step-Inv q (nexts w) v = next-Inv w q v
  step-Inv q closes v = close-Inv q v
  step-Inv q (fails e) v = fail-Inv e q v

  pub run-Inv : (q : Queue V E) (cs : List (Call V E)) → Inv q → Inv (run overflow truthy q cs).0
  unfolding run
  run-Inv q [] v = v
  run-Inv q (c ∷ cs) v = run-Inv (step overflow truthy q c).0 cs (step-Inv q c v)
