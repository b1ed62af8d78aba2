-- ===== src/Tests/Streams.antt =====
-- Histories of one event stream: a listener, an iterator, events and ends.
use meta_go.Prelude.{
  ℕ, ◌≡◌, refl, Bool, true, false, List, [], ◌∷◌, ◌++◌, map, arith, Option, none, some, All, inl,
  if◌then◌else◌, ◌==◌,
}
use meta_go.Proto.Event.{Event}
use meta_go.Queue.{init}
use meta_go.Stream.{
  Stream, calls, new_stream, start, on, begin, resume, at_iterator, call_queue, each_queue,
  close_stream, notify, after_notify, receive,
}
use meta_go.Stream.Listeners.{subscribe, listening, listeners_of, event_name}
use meta_go.Stream.Actions.{Action, subscribes, closes_stream, begins, resumes, receives, act}
use meta_go.Stream.Slots.{IsFed}
use meta_go.Stream.Delivery.{after, heard, AllAllowed, after-IsFed, after-closed_idle}
use meta_go.Stream.Closing.{IsSilent, act-closed, act-pumping}
use meta_go.Stream.Dispatch.{IsAdded, listening-subscribe, receive-calls}
use meta_go.Stream.Throwing.{unwound, after-unwound}
use meta_go.Tests.Inputs.{typing_event, bare_event}

abbrev pub overflow : ℕ → ℕ
overflow n = n

abbrev pub truthy : ℕ → Bool
truthy e = true

-- Listener 9 throws on every event, and no other listener does.
abbrev pub throws : ℕ → Event → Option ℕ
throws l e = if l == 9 then some 70 else none

abbrev history : List (Action ℕ)
history =
    subscribes "typing" 4
    ∷ begins 0 10
    ∷ receives (some typing_event)
    ∷ resumes 0 11
    ∷ receives (some bare_event)
    ∷ resumes 0 12
    ∷ closes_stream
    ∷ []

history-AllAllowed : AllAllowed overflow truthy throws (new_stream 2) history
unfolding act on start begin resume receive at_iterator call_queue new_stream after_notify notify
    each_queue listeners_of subscribe init
history-AllAllowed =
    (tt, (tt, (tt, (((λ e. inl refl), tt), (tt, (((λ e. inl refl), tt), (tt, tt)))))))

after-IsFed_example :
    All
      (λ x. IsFed (heard overflow truthy throws (λ i. []) (new_stream 2) history x.iterator) x)
      (after overflow truthy throws (new_stream 2) history).slots
after-IsFed_example = after-IsFed overflow truthy throws 2 history history-AllAllowed

history-closed : (after overflow truthy throws (new_stream 2) history).closed ≡ true
unfolding after act on start begin resume receive at_iterator call_queue new_stream after_notify
    notify each_queue listeners_of subscribe init close_stream
history-closed = refl

after-closed_idle_example :
    All (λ x. x.queue.waiters ≡ []) (after overflow truthy throws (new_stream 2) history).slots
after-closed_idle_example =
    after-closed_idle overflow truthy throws 2 history history-AllAllowed history-closed

-- A stream with a listener of "typing", which throws where `l` is 9.
abbrev listened : (closed pumping : Bool) → ℕ → Stream ℕ
listened closed pumping l = record {
  listeners = record { name = "typing"; set_id = 0; members = 3 ∷ l ∷ [] } ∷ [];
  next_set = 1;
  slots = [];
  started = true;
  pumping = pumping;
  closed = closed;
  iterator_buffer = 256;
  leaving = none;
}

act-closed_example :
    ((act overflow truthy throws (receives (some typing_event)) (listened true true 4)).0.closed
      ≡ true)
    × All IsSilent
        (act overflow truthy throws (receives (some typing_event)) (listened true true 4)).1
act-closed_example =
    act-closed overflow truthy throws (receives (some typing_event)) (listened true true 4) refl

act-pumping_example :
    ((act overflow truthy throws (subscribes "ready" 6) (listened true false 4)).0.started ≡ true)
    × ((act overflow truthy throws (subscribes "ready" 6) (listened true false 4)).0.pumping
        ≡ false)
act-pumping_example =
    act-pumping overflow truthy throws (subscribes "ready" 6) (listened true false 4) refl refl

listening-subscribe_example :
    IsAdded "typing" "typing" 5
      (listening "typing" (listened false true 4).listeners)
      (listening "typing" (subscribe "typing" 5 1 (listened false true 4).listeners))
listening-subscribe_example =
    listening-subscribe "typing" "typing" 5 1 (listened false true 4).listeners

receive-calls_example :
    (receive overflow throws (some typing_event) (listened false true 4)).1
    ≡ map (λ l. calls l typing_event) (listeners_of typing_event (listened false true 4).listeners)
unfolding listeners_of event_name listening
receive-calls_example =
    receive-calls throws overflow typing_event (listened false true 4) refl (refl, (refl, tt))

-- A reader waits when listener 9 throws; the program begins to iterate once more before the end.
abbrev listening_past : List (Action ℕ)
listening_past = subscribes "typing" 9 ∷ begins 0 0 ∷ []

abbrev meanwhile : List (Action ℕ)
meanwhile = begins 1 1 ∷ []

abbrev unwound_history : List (Action ℕ)
unwound_history = listening_past ++ unwound overflow truthy throws typing_event meanwhile

unwound-AllAllowed : AllAllowed overflow truthy throws (new_stream 2) unwound_history
unfolding act on start begin resume receive at_iterator call_queue new_stream after_notify notify
    each_queue listeners_of listening event_name subscribe init
unwound-AllAllowed = (tt, (tt, (tt, (((λ e. omega arith), tt), (tt, tt)))))

past-open : (after overflow truthy throws (new_stream 2) listening_past).closed ≡ false
unfolding after act on start begin resume at_iterator call_queue new_stream subscribe init
past-open = refl

past-throws :
    (notify throws
      (listeners_of typing_event
        (after overflow truthy throws (new_stream 2) listening_past).listeners)
      typing_event).1
    ≡ some 70
unfolding after act on start begin resume at_iterator call_queue new_stream subscribe init notify
    listeners_of listening event_name
past-throws = refl

after-unwound_example :
    let t = after overflow truthy throws (new_stream 2) unwound_history in
    (t.closed ≡ true) × (t.pumping ≡ false) × All (λ y. y.queue.waiters ≡ []) t.slots
after-unwound_example =
    after-unwound overflow truthy throws 2 listening_past meanwhile typing_event 70
      unwound-AllAllowed past-open past-throws (tt, tt)
