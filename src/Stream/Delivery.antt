-- ===== src/Stream/Delivery.antt =====
-- EventStream: every history of actions keeps each iterator's account of the events.
use meta_go.Prelude.{ℕ, suc, ◌≡◌, Bool, true, String, List, [], ◌∷◌, Option, All, inl, inr}
use meta_go.Proto.Event.{Event}
use meta_go.Stream.{Stream, Slot, new_stream, on, off, leave}
use meta_go.Stream.Listeners.{ListenerSet, subscribe}
use meta_go.Stream.Slots.{IsFed}
use meta_go.Stream.Actions.{
  Action, subscribes, unsubscribes, closes_stream, begins, resumes, leaves, receives, ends, breaks,
  returns, act, Allowed, accepted,
}
use meta_go.Stream.Accounts.{Heard, heard_more, Account, IsOver}
use meta_go.Stream.Operations.{
  StreamInv, reset, nothing_new, start-StreamInv, close_stream-StreamInv, source_ends-StreamInv,
  source_fails-StreamInv, returned-StreamInv, resume-StreamInv, leave-accounts, leave-IsOver,
  begin-StreamInv, receive-StreamInv,
}
use meta_go.Queue.Invariant.{ended-waiters}

module _ {E : Type 0} where
  -- Changing the listeners touches no account.
  kept :
      {received : Heard} {s : Stream E} {ls : List ListenerSet} {n : ℕ}
      → StreamInv received s
      → StreamInv received (record s { listeners = ls; next_set = n })
  kept v = record { accounts = v.accounts; over = v.over }

  abbrev subscribed : String → ℕ → Stream E → Stream E
  subscribed name l s = record s {
    listeners = subscribe name l s.next_set s.listeners;
    next_set = suc s.next_set;
  }

module _ {E : Type 0} (overflow : ℕ → E) (truthy : E → Bool) (throws : ℕ → Event → Option E) where
  -- What each iterator has heard after an action: it starts over when it begins.
  unfoldable pub heard_after : Action E → Stream E → Heard → Heard
  heard_after (begins i w) s received = reset i received
  heard_after a s received = heard_more received (accepted overflow truthy throws a s)

  -- Every action that is allowed keeps the account of every iterator.
  pub act-StreamInv :
      (received : Heard) (a : Action E) (s : Stream E)
      → StreamInv received s
      → Allowed overflow truthy throws a s
      → StreamInv (heard_after a s received) (act overflow truthy throws a s).0
  unfolding act on off leave heard_after
  act-StreamInv received (subscribes name l) s v ok =
      nothing_new received _ (start-StreamInv received (subscribed name l s) (kept v))
  act-StreamInv received (unsubscribes id l) s v ok = nothing_new received _ (kept v)
  act-StreamInv received closes_stream s v ok =
      nothing_new received _ (close_stream-StreamInv overflow truthy received s v)
  act-StreamInv received (begins i w) s v ok =
      begin-StreamInv overflow truthy throws received i w s v ok
  act-StreamInv received (resumes i w) s v ok =
      nothing_new received _ (resume-StreamInv overflow truthy received i w s v ok)
  act-StreamInv received (leaves i) s v ok = nothing_new received _ (record {
    accounts = leave-accounts overflow truthy received i s.slots v.accounts ok;
    over = λ c. leave-IsOver overflow truthy i s.slots (v.over c);
  })
  act-StreamInv received (receives r) s v ok =
      receive-StreamInv overflow truthy throws received r s v
  act-StreamInv received ends s v ok =
      nothing_new received _ (source_ends-StreamInv overflow truthy received s v)
  act-StreamInv received (breaks e) s v ok =
      nothing_new received _ (source_fails-StreamInv overflow truthy received e s v)
  act-StreamInv received returns s v ok =
      nothing_new received _ (returned-StreamInv overflow truthy received s v)

  -- A history of actions: where it leads, what each iterator has heard, and that each is allowed.
  unfoldable pub after : Stream E → List (Action E) → Stream E
  after s [] = s
  after s (a ∷ acts) = after (act overflow truthy throws a s).0 acts

  unfoldable pub heard : Heard → Stream E → List (Action E) → Heard
  heard received s [] = received
  heard received s (a ∷ acts) =
      heard (heard_after a s received) (act overflow truthy throws a s).0 acts

  abbrev pub AllAllowed : Stream E → List (Action E) → Type 0
  AllAllowed s [] = Unit
  AllAllowed s (a ∷ acts) =
      Allowed overflow truthy throws a s × AllAllowed (act overflow truthy throws a s).0 acts

  after-StreamInv :
      (received : Heard) (s : Stream E) (acts : List (Action E))
      → StreamInv received s
      → AllAllowed s acts
      → StreamInv (heard received s acts) (after s acts)
  unfolding after heard
  after-StreamInv received s [] v ok = v
  after-StreamInv received s (a ∷ acts) v ok =
      after-StreamInv (heard_after a s received) _ acts (act-StreamInv received a s v ok.0) ok.1

  init-StreamInv : (buffer : ℕ) → StreamInv (λ _. []) (new_stream {E = E} buffer)
  unfolding new_stream
  init-StreamInv buffer = record { accounts = tt; over = λ _. tt }

  IsFed-of :
      (received : Heard) (xs : List (Slot E))
      → All (Account received) xs
      → All (λ x. IsFed (received x.iterator) x) xs
  IsFed-of received [] h = tt
  IsFed-of received (x ∷ xs) h = (h.0.fed, IsFed-of received xs h.1)

  idle_of :
      (received : Heard) (xs : List (Slot E))
      → All (Account received) xs
      → All IsOver xs
      → All (λ x. x.queue.waiters ≡ []) xs
  idle_of received [] h k = tt
  idle_of received (x ∷ xs) h k = (
    elim k.0 [ inl off_air ↦ h.0.quiet off_air | inr over ↦ ended-waiters _ h.0.sound over ],
    idle_of received xs h.1 k.1,
  )

  -- After any history of allowed actions of a new stream, each iterator has been given, in order
  -- and each once, the events that the pump took since the iterator began, up to those that wait in
  -- its queue and those that it lost; it lost none unless its queue has ended or is off the stream.
  pub after-IsFed :
      (buffer : ℕ) (acts : List (Action E))
      → AllAllowed (new_stream buffer) acts
      → All
          (λ x. IsFed (heard (λ _. []) (new_stream buffer) acts x.iterator) x)
          (after (new_stream buffer) acts).slots
  after-IsFed buffer acts ok =
      IsFed-of _ _
        (after-StreamInv (λ _. []) (new_stream buffer) acts (init-StreamInv buffer) ok).accounts

  -- Once a history of allowed actions of a new stream has closed it, by its user, by the server or
  -- by an error, no iterator is left waiting.
  pub after-closed_idle :
      (buffer : ℕ) (acts : List (Action E))
      → AllAllowed (new_stream buffer) acts
      → (after (new_stream buffer) acts).closed ≡ true
      → All (λ x. x.queue.waiters ≡ []) (after (new_stream buffer) acts).slots
  after-closed_idle buffer acts ok c =
      let v = after-StreamInv (λ _. []) (new_stream buffer) acts (init-StreamInv buffer) ok in
      idle_of _ _ v.accounts (v.over c)
