-- ===== src/Stream/Closing.antt =====
-- EventStream: closing is for good, and the pump runs once.
use meta_go.Prelude.{ℕ, ◌≡◌, Bool, true, false, List, Option, none, some, All, arith}
use meta_go.Proto.Event.{Event}
use meta_go.Stream.Listeners.{listeners_of}
use meta_go.Stream.{
  Stream, Effect, calls, aborts, on_close, finishes, start, on, off, resume, begin, leave,
  close_stream, source_ends, source_fails, caught, returned, after_notify, receive, notify,
}
use meta_go.Stream.Actions.{
  Action, subscribes, unsubscribes, closes_stream, begins, resumes, leaves, receives, ends, breaks,
  returns, act,
}

-- The effect is no call of a listener, and does not abort the call to the server.
abbrev pub IsSilent : Effect → Type 0
IsSilent (calls l e) = ⊥
IsSilent aborts = ⊥
IsSilent on_close = Unit
IsSilent (finishes w) = Unit

module _ {E : Type 0} where
  returned-closed :
      (s : Stream E)
      → s.closed ≡ true
      → ((returned s).0.closed ≡ true) × All IsSilent (returned s).1
  unfolding returned caught source_fails
  returned-closed s c = ground arith

  returned-pumping :
      (s : Stream E)
      → s.pumping ≡ false
      → ((returned s).0.started ≡ s.started) × ((returned s).0.pumping ≡ false)
  unfolding returned caught source_fails
  returned-pumping s p = ground arith

module _ {E : Type 0} (overflow : ℕ → E) (truthy : E → Bool) (throws : ℕ → Event → Option E) where
  -- Whatever happens to a closed stream, it stays closed, calls no listener and aborts nothing again.
  pub act-closed :
      (a : Action E) (s : Stream E)
      → s.closed ≡ true
      → ((act overflow truthy throws a s).0.closed ≡ true)
        × All IsSilent (act overflow truthy throws a s).1
  unfolding act on off start resume begin leave close_stream source_ends source_fails receive
  act-closed (subscribes name l) s c = ground arith
  act-closed (unsubscribes id l) s c = ground arith
  act-closed closes_stream s c = ground arith
  act-closed (begins i w) s c = ground arith
  act-closed (resumes i w) s c = ground arith
  act-closed (leaves i) s c = ground arith
  act-closed (receives none) s c = ground arith
  act-closed (receives (some e)) s c = ground arith
  act-closed ends s c = ground arith
  act-closed (breaks e) s c = ground arith
  act-closed returns s c = returned-closed s c

  after_notify-pumping :
      (e : Event) (s : Stream E) (n : List Effect × Option E)
      → s.pumping ≡ false
      → ((after_notify overflow e s n).0.pumping ≡ false)
        × ((after_notify overflow e s n).0.started ≡ s.started)
  unfolding after_notify
  after_notify-pumping e s (out, none) p = ground arith
  after_notify-pumping e s (out, some x) p = ground arith

  -- A pump that was started and has stopped is never started again.
  pub act-pumping :
      (a : Action E) (s : Stream E)
      → s.started ≡ true
      → s.pumping ≡ false
      → ((act overflow truthy throws a s).0.started ≡ true)
        × ((act overflow truthy throws a s).0.pumping ≡ false)
  unfolding act on off start resume begin leave close_stream source_ends source_fails receive
  act-pumping (subscribes name l) s b p = ground arith
  act-pumping (unsubscribes id l) s b p = ground arith
  act-pumping closes_stream s b p = ground arith
  act-pumping (begins i w) s b p = ground arith
  act-pumping (resumes i w) s b p = ground arith
  act-pumping (leaves i) s b p = ground arith
  act-pumping (receives none) s b p = ground arith
  act-pumping (receives (some e)) s b p =
      ground (arith, after_notify-pumping e s (notify throws (listeners_of e s.listeners) e))
  act-pumping ends s b p = ground arith
  act-pumping (breaks e) s b p = ground arith
  act-pumping returns s b p = ground (arith, returned-pumping s p)
