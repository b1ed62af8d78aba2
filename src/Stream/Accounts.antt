-- ===== src/Stream/Accounts.antt =====
-- EventStream: the loops over `this.queues` keep each iterator's account.
use meta_go.Prelude.{
  ℕ, ◌≡◌, refl, subst, fun_ext, Bool, true, false, List, [], ◌∷◌, ◌++◌, All, append-nil, arith, ◌⊎◌,
  inl, inr, ◌==◌, ==_iff, if-intro, map,
}
use meta_go.Queue.{Queue, Settled, Call, nexts, closes, fails, step, next, close, fail}
use meta_go.Queue.Delivery.{pushed}
use meta_go.Proto.Event.{Event}
use meta_go.Stream.{Slot, call_queue, each_queue, at_iterator, detached}
use meta_go.Stream.Slots.{SlotInv, call_queue-SlotInv, missed-SlotInv, detached-SlotInv}
use meta_go.Queue.Invariant.{ended-waiters}

-- Of each iterator, the events that the pump has taken since the iterator began.
abbrev pub Heard : Type 0
Heard = ℕ → List Event

abbrev pub heard_more : Heard → List Event → Heard
heard_more received events i = received i ++ events

pub heard_more-nil : (received : Heard) → heard_more received [] ≡ received
heard_more-nil received = fun_ext (λ i. append-nil (received i))

abbrev pub Account : {E : Type 0} → Heard → Slot E → Type 0
Account received x = SlotInv (received x.iterator) x

module _ {E : Type 0} where
  -- What `close` and `fail` leave behind: every attached queue has ended.
  abbrev pub IsOver : Slot E → Type 0
  IsOver x = (x.attached ≡ false) ⊎ (x.queue.ended ≡ true)

  pub close-ended : (q : Queue Event E) → (close q).0.ended ≡ true
  unfolding close
  close-ended q = ground arith

  pub fail-ended : (e : E) (q : Queue Event E) → (fail e q).0.ended ≡ true
  unfolding fail
  fail-ended e q = ground arith

  pub each-IsOver :
      (f : Queue Event E → Queue Event E × Settled Event E) (xs : List (Slot E))
      → ((q : Queue Event E) → (f q).0.ended ≡ true)
      → All IsOver (each_queue f xs)
  unfolding each_queue
  each-IsOver f [] h = tt
  each-IsOver f (x ∷ xs) h = (
    if-intro IsOver x.attached _ x (λ on_air. inr (h x.queue)) (λ off_air. inl off_air),
    each-IsOver f xs h,
  )

  -- After `close`, every slot can be detached.
  pub detached-All :
      (received : Heard) (xs : List (Slot E))
      → All (Account received) xs
      → All IsOver xs
      → All (Account received) (map detached xs)
  detached-All received [] h k = tt
  detached-All received (x ∷ xs) h k = (
    detached-SlotInv (received x.iterator) x h.0
        (elim k.0 [ inl off_air ↦ h.0.quiet off_air | inr over ↦ ended-waiters _ h.0.sound over ]),
    detached-All received xs h.1 k.1,
  )

  pub detached-IsOver : (xs : List (Slot E)) → All IsOver (map detached xs)
  detached-IsOver [] = tt
  detached-IsOver (x ∷ xs) = (inl refl, detached-IsOver xs)

module _ {E : Type 0} (overflow : ℕ → E) (truthy : E → Bool) where
  pub each-SlotInv :
      (received : Heard) (c : Call Event E) (xs : List (Slot E))
      → All (Account received) xs
      → All
          (Account (heard_more received (pushed (c ∷ []))))
          (each_queue (λ q. step overflow truthy q c) xs)
  unfolding each_queue
  each-SlotInv received c [] h = tt
  each-SlotInv received c (x ∷ xs) h = (
    if-intro (Account (heard_more received (pushed (c ∷ [])))) x.attached _ x
        (λ on_air. call_queue-SlotInv overflow truthy (received x.iterator) x c h.0 (inl on_air))
        (λ off_air. missed-SlotInv (received x.iterator) (pushed (c ∷ [])) x h.0 off_air),
    each-SlotInv received c xs h.1,
  )

  pub at-SlotInv :
      (received : Heard) (i w : ℕ) (xs : List (Slot E))
      → All (Account received) xs
      → All (λ x. x.iterator ≡ i → (x.attached ≡ true) ⊎ (x.queue.ended ≡ true)) xs
      → All (Account received) (at_iterator i (call_queue (next truthy w)) xs)
  unfolding at_iterator call_queue step
  at-SlotInv received i w [] h k = tt
  at-SlotInv received i w (x ∷ xs) h k = (
    if-intro (Account received) (x.iterator == i) (call_queue (next truthy w) x) x
        (λ same.
          subst (λ r. SlotInv r (call_queue (next truthy w) x)) (append-nil (received x.iterator))
            (call_queue-SlotInv overflow truthy (received x.iterator) x (nexts w) h.0
              (k.0 ((==_iff _ _).0 same))))
        (λ other. h.0),
    at-SlotInv received i w xs h.1 k.1,
  )

  -- `close` and `fail` hand over no event.
  pub close_each :
      (received : Heard) (xs : List (Slot E))
      → All (Account received) xs
      → All (Account received) (each_queue close xs)
  unfolding step
  close_each received xs h =
      subst (λ r. All (Account r) (each_queue close xs)) (heard_more-nil received)
        (each-SlotInv received closes xs h)

  pub fail_each :
      (received : Heard) (e : E) (xs : List (Slot E))
      → All (Account received) xs
      → All (Account received) (each_queue (fail e) xs)
  unfolding step
  fail_each received e xs h =
      subst (λ r. All (Account r) (each_queue (fail e) xs)) (heard_more-nil received)
        (each-SlotInv received (fails e) xs h)
