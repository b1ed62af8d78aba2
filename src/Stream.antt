-- ===== src/Stream.antt =====
-- class EventStream of sdk/node/src/events.ts: one pump reads the server's stream, calls listeners and
-- feeds the queue of each iterator. What runs between two awaits is one action; a listener that throws
-- makes the loop await `source.return()` before the exception reaches the `catch`. Listeners, Sets and
-- iterators are shared objects, so each has an identity. `throws` says which listener throws on which
-- event; a listener that calls back into the stream is left out.
pub mod Listeners
pub mod Slots
pub mod Actions
pub mod Accounts
pub mod Operations
pub mod Delivery
pub mod Closing
pub mod Dispatch
pub mod Throwing
use meta_go.Prelude.{
  ℕ, suc, ◌+◌, String, Bool, true, false, List, [], ◌∷◌, ◌++◌, ◌||◌, Option, none, some, ◌==◌,
  if◌then◌else◌, map,
}
use meta_go.Queue.{Queue, Settled, init, push, next, close, fail}
use meta_go.Proto.Event.{Event}
use meta_go.Stream.Listeners.{ListenerSet, subscribe, delete_member, listeners_of}

-- An iterator's queue, whether it is in `this.queues`, and what its promises have settled to so far.
pub record Slot (E : Type 0) : Type 0 where
  pub iterator : ℕ
  pub queue : Queue Event E
  pub attached : Bool
  pub answered : Settled Event E

pub record Stream (E : Type 0) : Type 0 where
  pub listeners : List ListenerSet
  pub next_set : ℕ
  pub slots : List (Slot E)
  pub started : Bool
  pub pumping : Bool
  pub closed : Bool
  pub iterator_buffer : ℕ
  -- What a listener threw, while the loop of the pump awaits `source.return()`.
  pub leaving : Option E

-- What an action does outside the stream.
pub data Effect : Type 0 where
  calls : ℕ → Event → Effect
  aborts : Effect
  on_close : Effect
  finishes : ℕ → Effect

module _ {E : Type 0} where
  unfoldable pub new_stream : ℕ → Stream E
  new_stream buffer = record {
    listeners = [];
    next_set = 0;
    slots = [];
    started = false;
    pumping = false;
    closed = false;
    iterator_buffer = buffer;
    leaving = none;
  }

  -- The private method `start`.
  unfoldable pub start : Stream E → Stream E
  start s = if s.started || s.closed then s else record s { started = true; pumping = true }

  unfoldable pub on : String → ℕ → Stream E → Stream E
  unfolding subscribe start
  on name l s =
      start (record s {
        listeners = subscribe name l s.next_set s.listeners;
        next_set = suc s.next_set;
      })

  -- The function that `on` returns deletes from the Set that it has closed over.
  unfoldable pub off : ℕ → ℕ → Stream E → Stream E
  unfolding delete_member
  off id l s = record s { listeners = map drop_from s.listeners }
    where
      drop_from : ListenerSet → ListenerSet
      drop_from x = if x.set_id == id then record x { members = delete_member l x.members } else x

  -- A call of a method of one queue; its answers go to the iterator.
  unfoldable pub call_queue : (Queue Event E → Queue Event E × Settled Event E) → Slot E → Slot E
  call_queue f x = let (q, out) = f x.queue in record x { queue = q; answered = x.answered ++ out }

  -- `for (const queue of this.queues) f(queue)`.
  unfoldable pub each_queue :
      (Queue Event E → Queue Event E × Settled Event E) → List (Slot E) → List (Slot E)
  unfolding call_queue
  each_queue f [] = []
  each_queue f (x ∷ xs) = (if x.attached then call_queue f x else x) ∷ each_queue f xs

  -- An action on the slot of one iterator.
  unfoldable pub at_iterator : ℕ → (Slot E → Slot E) → List (Slot E) → List (Slot E)
  at_iterator i f [] = []
  at_iterator i f (x ∷ xs) = (if x.iterator == i then f x else x) ∷ at_iterator i f xs

  -- `const queue = new EventQueue(this.iteratorBuffer); this.queues.add(queue)`.
  abbrev pub with_slot : ℕ → Stream E → Stream E
  with_slot i s = record s {
    slots =
        s.slots
        ++ (record { iterator = i; queue = init s.iterator_buffer; attached = true; answered = [] }
            ∷ []);
  }

  abbrev pub detached : Slot E → Slot E
  detached x = record x { attached = false }

  unfoldable pub close_stream : Stream E → Stream E × List Effect
  unfolding each_queue
  close_stream s = if s.closed then (s, []) else (
    record s { closed = true; slots = map detached (each_queue close s.slots); listeners = [] },
    aborts ∷ on_close ∷ [],
  )

  -- The loop of the pump is left by `source` ending, which is not asked whether the stream is closed.
  unfoldable pub source_ends : Stream E → Stream E × List Effect
  unfolding each_queue
  source_ends s = (
    record s { closed = true; pumping = false; slots = each_queue close s.slots; listeners = [] },
    on_close ∷ [],
  )

  -- The `catch` of the pump.
  unfoldable pub source_fails : E → Stream E → Stream E × List Effect
  unfolding each_queue
  source_fails e s = if s.closed then (record s { pumping = false }, []) else (
    record s {
      closed = true;
      pumping = false;
      slots = each_queue (fail e) s.slots;
      listeners = [];
    },
    on_close ∷ [],
  )

  unfoldable pub caught : Option E → Stream E → Stream E × List Effect
  unfolding source_fails
  caught none s = (s, [])
  caught (some e) s = source_fails e (record s { leaving = none })

  -- `source.return()` has settled: what the listener threw reaches the `catch`.
  unfoldable pub returned : Stream E → Stream E × List Effect
  unfolding caught
  returned s = caught s.leaving s

module _ {E : Type 0} (truthy : E → Bool) where
  -- `const next = await queue.next()` in the iterator `i`, for its caller's promise `w`.
  unfoldable pub resume : ℕ → ℕ → Stream E → Stream E
  unfolding at_iterator call_queue
  resume i w s = record s { slots = at_iterator i (call_queue (next truthy w)) s.slots }

  -- The first `next()` of an iterator runs its body up to the first await.
  unfoldable pub begin : ℕ → ℕ → Stream E → Stream E × List Effect
  unfolding resume start
  begin i w s = if s.closed then (s, finishes w ∷ []) else (resume i w (start (with_slot i s)), [])

-- The `finally` of the iterator.
unfoldable pub leave : {E : Type 0} → ℕ → Stream E → Stream E
unfolding at_iterator
leave i s = record s { slots = at_iterator i detached s.slots }

module _ {E : Type 0} (throws : ℕ → Event → Option E) where
  -- Listeners are called one after another until one throws.
  unfoldable pub notify : List ℕ → Event → List Effect × Option E
  notify [] e = ([], none)
  notify (l ∷ ls) e =
      let later = notify ls e in
      elim (throws l e) [
        | none ↦ (calls l e ∷ later.0, later.1)
        | some x ↦ (calls l e ∷ [], some x)
      ]

-- After the listeners: the queues get the event, or the exception leaves the loop.
module _ {E : Type 0} (overflow : ℕ → E) where
  unfoldable pub after_notify : Event → Stream E → List Effect × Option E → Stream E × List Effect
  unfolding each_queue
  after_notify e s (out, none) = (record s { slots = each_queue (push overflow e) s.slots }, out)
  after_notify e s (out, some x) = (record s { leaving = some x }, out)

module _ {E : Type 0} (overflow : ℕ → E) (throws : ℕ → Event → Option E) where
  -- One round of `for await (const response of this.source)`.
  unfoldable pub receive : Option Event → Stream E → Stream E × List Effect
  unfolding notify after_notify listeners_of
  receive none s = if s.closed then (record s { pumping = false }, []) else (s, [])
  receive (some e) s =
      if s.closed
      then (record s { pumping = false }, [])
      else after_notify overflow e s (notify throws (listeners_of e s.listeners) e)
