-- ===== src/Stream/Throwing.antt =====
-- EventStream: what a listener that throws brings about.
use meta_go.Prelude.{
  ℕ, ◌≡◌, refl, ap, ◌∙◌, Bool, true, false, List, [], ◌∷◌, ◌++◌, Option, some, All, arith,
}
use meta_go.Proto.Event.{Event}
use meta_go.Stream.{
  Stream, new_stream, start, on, off, resume, begin, leave, close_stream, source_fails, caught,
  returned, after_notify, receive, notify,
}
use meta_go.Stream.Listeners.{listeners_of}
use meta_go.Stream.Actions.{
  Action, subscribes, unsubscribes, closes_stream, begins, resumes, leaves, receives, ends, breaks,
  returns, act,
}
use meta_go.Stream.Delivery.{after, AllAllowed, after-closed_idle}

-- The action is a step of the program or of an iterator, not of the pump.
abbrev pub IsOfUser : {E : Type 0} → Action E → Type 0
IsOfUser (receives r) = ⊥
IsOfUser ends = ⊥
IsOfUser (breaks e) = ⊥
IsOfUser returns = ⊥
IsOfUser _ = Unit

module _ {E : Type 0} (overflow : ℕ → E) (truthy : E → Bool) (throws : ℕ → Event → Option E) where
  -- Only the pump puts down what a listener threw.
  act-leaving :
      (a : Action E) (s : Stream E)
      → IsOfUser a
      → (act overflow truthy throws a s).0.leaving ≡ s.leaving
  unfolding act on off start resume begin leave close_stream
  act-leaving (subscribes name l) s u = ground arith
  act-leaving (unsubscribes id l) s u = ground arith
  act-leaving closes_stream s u = ground arith
  act-leaving (begins i w) s u = ground arith
  act-leaving (resumes i w) s u = ground arith
  act-leaving (leaves i) s u = ground arith
  act-leaving (receives r) s u = absurd u
  act-leaving ends s u = absurd u
  act-leaving (breaks e) s u = absurd u
  act-leaving returns s u = absurd u

  receive-leaving :
      (e : Event) (s : Stream E) (x : E)
      → s.closed ≡ false
      → (notify throws (listeners_of e s.listeners) e).1 ≡ some x
      → (act overflow truthy throws (receives (some e)) s).0.leaving ≡ some x
  unfolding act receive after_notify
  receive-leaving e s x open_ thrown = ground arith

  returned-stops :
      (s : Stream E) (x : E)
      → s.leaving ≡ some x
      → ((act overflow truthy throws returns s).0.closed ≡ true)
        × ((act overflow truthy throws returns s).0.pumping ≡ false)
  unfolding act returned caught source_fails
  returned-stops s x thrown = ground arith

  after-returned-stops :
      (meanwhile : List (Action E)) (s : Stream E) (x : E)
      → s.leaving ≡ some x
      → All IsOfUser meanwhile
      → ((after overflow truthy throws s (meanwhile ++ (returns ∷ []))).closed ≡ true)
        × ((after overflow truthy throws s (meanwhile ++ (returns ∷ []))).pumping ≡ false)
  unfolding after
  after-returned-stops [] s x thrown u = returned-stops s x thrown
  after-returned-stops (a ∷ acts) s x thrown u =
      after-returned-stops acts (act overflow truthy throws a s).0 x (act-leaving a s u.0 ∙ thrown)
        u.1

  after-append :
      (s : Stream E) (xs ys : List (Action E))
      → after overflow truthy throws s (xs ++ ys)
        ≡ after overflow truthy throws (after overflow truthy throws s xs) ys
  unfolding after
  after-append s [] ys = refl
  after-append s (a ∷ xs) ys = after-append (act overflow truthy throws a s).0 xs ys

  -- The history of a listener's exception: the event, what program and iterators do while the loop
  -- of the pump awaits `source.return()`, and the end of that wait.
  abbrev pub unwound : Event → List (Action E) → List (Action E)
  unwound e meanwhile = receives (some e) ∷ (meanwhile ++ (returns ∷ []))

  unwound-stops :
      (s : Stream E) (meanwhile : List (Action E)) (e : Event) (x : E)
      → s.closed ≡ false
      → (notify throws (listeners_of e s.listeners) e).1 ≡ some x
      → All IsOfUser meanwhile
      → ((after overflow truthy throws s (unwound e meanwhile)).closed ≡ true)
        × ((after overflow truthy throws s (unwound e meanwhile)).pumping ≡ false)
  unfolding after
  unwound-stops s meanwhile e x open_ thrown users =
      after-returned-stops meanwhile _ x (receive-leaving e s x open_ thrown) users

  -- A listener that throws brings the stream down. Take a history of allowed actions of a new
  -- stream that leaves it open, an event on which one of its listeners then throws, any allowed
  -- actions of the program and of iterators while the pump awaits `source.return()`, and the end of
  -- that wait: the stream is closed, the pump has stopped, and no iterator is left waiting.
  pub after-unwound :
      (buffer : ℕ) (past meanwhile : List (Action E)) (e : Event) (x : E)
      → AllAllowed overflow truthy throws (new_stream buffer) (past ++ unwound e meanwhile)
      → (after overflow truthy throws (new_stream buffer) past).closed ≡ false
      → (notify throws
          (listeners_of e (after overflow truthy throws (new_stream buffer) past).listeners)
          e).1
        ≡ some x
      → All IsOfUser meanwhile
      → let t = after overflow truthy throws (new_stream buffer) (past ++ unwound e meanwhile) in
        (t.closed ≡ true) × (t.pumping ≡ false) × All (λ y. y.queue.waiters ≡ []) t.slots
  after-unwound buffer past meanwhile e x ok open_ thrown users =
      let stops = unwound-stops _ meanwhile e x open_ thrown users in
      let joined = after-append (new_stream buffer) past (unwound e meanwhile) in
      let closed_ = ap (λ (s : Stream E). s.closed) joined ∙ stops.0 in
      (
        closed_,
        ap (λ (s : Stream E). s.pumping) joined ∙ stops.1,
        after-closed_idle overflow truthy throws buffer _ ok closed_,
      )
