-- ===== src/Stream/Actions.antt =====
-- EventStream: what can happen to a stream, and which events it hands to the queues.
use meta_go.Prelude.{
  ℕ, ◌≡◌, ◌≢◌, Bool, true, String, List, [], ◌∷◌, Option, none, some, All, ◌⊎◌, if◌then◌else◌,
}
use meta_go.Proto.Event.{Event}
use meta_go.Stream.{
  Stream, Effect, on, off, close_stream, source_ends, source_fails, returned, resume, begin, leave,
  notify, receive,
}
use meta_go.Stream.Listeners.{listeners_of}

-- What a program, its iterators and the server do to a stream.
pub data Action (E : Type 0) : Type 0 where
  subscribes : String → ℕ → Action E
  unsubscribes : ℕ → ℕ → Action E
  closes_stream : Action E
  begins : ℕ → ℕ → Action E
  resumes : ℕ → ℕ → Action E
  leaves : ℕ → Action E
  receives : Option Event → Action E
  ends : Action E
  breaks : E → Action E
  returns : Action E

module _ {E : Type 0} (overflow : ℕ → E) (truthy : E → Bool) (throws : ℕ → Event → Option E) where
  unfoldable pub act : Action E → Stream E → Stream E × List Effect
  act (subscribes name l) s = (on name l s, [])
  act (unsubscribes id l) s = (off id l s, [])
  act closes_stream s = close_stream s
  act (begins i w) s = begin truthy i w s
  act (resumes i w) s = (resume truthy i w s, [])
  act (leaves i) s = (leave i s, [])
  act (receives r) s = receive overflow throws r s
  act ends s = source_ends s
  act (breaks e) s = source_fails e s
  act returns s = returned s

  -- An iterator has an identity of its own, asks again only until it has left, and leaves when none of
  -- its promises is pending.
  abbrev pub Allowed : Action E → Stream E → Type 0
  Allowed (begins i w) s = All (λ x. x.iterator ≢ i) s.slots
  Allowed (resumes i w) s =
      All (λ x. x.iterator ≡ i → (x.attached ≡ true) ⊎ (x.queue.ended ≡ true)) s.slots
  Allowed (leaves i) s = All (λ x. x.iterator ≡ i → x.queue.waiters ≡ []) s.slots
  Allowed _ s = Unit

  -- The event that an action hands to the queues, if any: a closed stream ignores what it receives, and
  -- an event on which a listener throws never comes to the queues.
  abbrev pub handed : Event → Option E → List Event
  handed e none = e ∷ []
  handed e (some x) = []

  abbrev pub accepted : Action E → Stream E → List Event
  accepted (receives (some e)) s =
      if s.closed then [] else handed e (notify throws (listeners_of e s.listeners) e).1
  accepted _ s = []
