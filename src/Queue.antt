-- ===== src/Queue.antt =====
-- class EventQueue of sdk/node/src/events.ts: a bounded buffer between the pump and one iterator.
-- A pending `next()` is the identity of its promise, and each operation returns the queue with the
-- promises that it settles, in order. `truthy` is JavaScript's test `if (this.error)`.
pub mod Invariant
pub mod Delivery
pub mod Promises
use meta_go.Prelude.{
  ℕ, Bool, true, false, List, [], ◌∷◌, ◌++◌, map, Option, none, some, leb, length, if◌then◌else◌,
}

-- How a promise settles: an event, the end of the iteration, or a rejection.
pub data Outcome (V E : Type 0) : Type 0 where
  value : V → Outcome V E
  done : Outcome V E
  rejected : E → Outcome V E

pub record Queue (V E : Type 0) : Type 0 where
  pub values : List V
  pub waiters : List ℕ
  pub error : Option E
  pub ended : Bool
  pub limit : ℕ

abbrev pub Settled : Type 0 → Type 0 → Type 0
Settled V E = List (ℕ × Outcome V E)

module _ {V E : Type 0} where
  unfoldable pub init : ℕ → Queue V E
  init limit = record { values = []; waiters = []; error = none; ended = false; limit = limit }

  -- `for (const waiter of this.waiters.splice(0))` settles every waiter alike.
  unfoldable pub settle_all : Outcome V E → List ℕ → Settled V E
  settle_all o = map (λ w. (w, o))

  unfoldable pub close : Queue V E → Queue V E × Settled V E
  unfolding settle_all
  close q =
      if q.ended
      then (q, [])
      else (record q { ended = true; waiters = [] }, settle_all done q.waiters)

  unfoldable pub fail : E → Queue V E → Queue V E × Settled V E
  unfolding settle_all
  fail e q = if q.ended then (q, []) else (
    record q { error = some e; ended = true; waiters = [] },
    settle_all (rejected e) q.waiters,
  )

module _ {V E : Type 0} (overflow : ℕ → E) where
  unfoldable pub offer : V → Queue V E → List ℕ → Queue V E × Settled V E
  unfolding fail
  offer v q (w ∷ ws) = (record q { waiters = ws }, (w, value v) ∷ [])
  offer v q [] =
      if leb q.limit (length q.values)
      then fail (overflow q.limit) q
      else (record q { values = q.values ++ (v ∷ []) }, [])

  unfoldable pub push : V → Queue V E → Queue V E × Settled V E
  unfolding offer
  push v q = if q.ended then (q, []) else offer v q q.waiters

abbrev pub is_truthy : {E : Type 0} → (E → Bool) → Option E → Bool
is_truthy truthy none = false
is_truthy truthy (some e) = truthy e

-- `Promise.reject(this.error)`; an `undefined` error is never truthy.
abbrev pub rejection : {V E : Type 0} → Option E → Outcome V E
rejection none = done
rejection (some e) = rejected e

module _ {V E : Type 0} (truthy : E → Bool) where
  unfoldable pub poll : ℕ → Queue V E → List V → Queue V E × Settled V E
  poll w q (v ∷ vs) = (record q { values = vs }, (w, value v) ∷ [])
  poll w q [] =
      if is_truthy truthy q.error
      then (q, (w, rejection q.error) ∷ [])
      else if q.ended
      then (q, (w, done) ∷ [])
      else (record q { waiters = q.waiters ++ (w ∷ []) }, [])

  unfoldable pub next : ℕ → Queue V E → Queue V E × Settled V E
  unfolding poll
  next w q = poll w q q.values

-- The calls that a queue receives, from the pump and from its iterator.
pub data Call (V E : Type 0) : Type 0 where
  pushes : V → Call V E
  nexts : ℕ → Call V E
  closes : Call V E
  fails : E → Call V E

module _ {V E : Type 0} (overflow : ℕ → E) (truthy : E → Bool) where
  unfoldable pub step : Queue V E → Call V E → Queue V E × Settled V E
  step q (pushes v) = push overflow v q
  step q (nexts w) = next truthy w q
  step q closes = close q
  step q (fails e) = fail e q

  -- A history of calls, with everything that it settles.
  unfoldable pub run : Queue V E → List (Call V E) → Queue V E × Settled V E
  run q [] = (q, [])
  run q (c ∷ cs) = let (q', out) = step q c in let (q'', more) = run q' cs in (q'', out ++ more)
