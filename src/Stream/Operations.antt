-- ===== src/Stream/Operations.antt =====
-- EventStream: each method keeps each iterator's account of the events.
use mathlib.Core.Bool.{false≢true}
use meta_go.Prelude.{
  ℕ, ◌≡◌, ◌≢◌, refl, sym, ap, ◌∙◌, subst, Bool, true, false, List, [], ◌∷◌, ◌++◌, Option, none,
  some, All, arith, ◌||◌, ◌⊎◌, inl, inr, ◌==◌, if◌then◌else◌, ==_iff, ==_refl, if-intro, All-append,
}
use meta_go.Queue.{Queue, pushes, step, init, next, close, fail}
use meta_go.Queue.Invariant.{init-Inv}
use meta_go.Proto.Event.{Event}
use meta_go.Stream.{
  Stream, Slot, Effect, start, call_queue, at_iterator, detached, with_slot, close_stream,
  source_ends, source_fails, caught, returned, resume, begin, notify, after_notify, receive,
}
use meta_go.Stream.Listeners.{listeners_of}
use meta_go.Stream.Slots.{SlotInv, detached-SlotInv}
use meta_go.Stream.Actions.{receives, handed, accepted}
use meta_go.Stream.Accounts.{
  Heard, heard_more, heard_more-nil, Account, IsOver, each-SlotInv, at-SlotInv, close_each,
  fail_each, close-ended, fail-ended, each-IsOver, detached-All, detached-IsOver,
}

-- A new iterator has heard nothing.
abbrev pub reset : ℕ → Heard → Heard
reset i received j = if j == i then [] else received j

eq_false : (a b : ℕ) → a ≢ b → (a == b) ≡ false
eq_false a b h = ground arith

pub record StreamInv {E : Type 0} (received : Heard) (s : Stream E) : Type 0 where
  pub accounts : All (Account received) s.slots
  pub over : s.closed ≡ true → All IsOver s.slots

module _ {E : Type 0} where
  pub nothing_new :
      (received : Heard) (s : Stream E)
      → StreamInv received s
      → StreamInv (heard_more received []) s
  nothing_new received s v = subst (λ r. StreamInv r s) (sym (heard_more-nil received)) v

  pub start-StreamInv :
      (received : Heard) (s : Stream E) → StreamInv received s → StreamInv received (start s)
  unfolding start
  start-StreamInv received s v =
      if-intro (StreamInv received) (s.started || s.closed) s _ (λ _. v)
        (λ _. record { accounts = v.accounts; over = v.over })

module _ {E : Type 0} (overflow : ℕ → E) (truthy : E → Bool) where
  pub close_stream-StreamInv :
      (received : Heard) (s : Stream E)
      → StreamInv received s
      → StreamInv received (close_stream s).0
  unfolding close_stream
  close_stream-StreamInv received s v =
      if-intro (λ (p : Stream E × List Effect). StreamInv received p.0) s.closed (s, []) _ (λ _. v)
        (λ _. record {
          accounts =
              detached-All received _ (close_each overflow truthy received s.slots v.accounts)
                (each-IsOver close s.slots close-ended);
          over = λ _. detached-IsOver _;
        })

  pub source_ends-StreamInv :
      (received : Heard) (s : Stream E)
      → StreamInv received s
      → StreamInv received (source_ends s).0
  unfolding source_ends
  source_ends-StreamInv received s v = record {
    accounts = close_each overflow truthy received s.slots v.accounts;
    over = λ _. each-IsOver close s.slots close-ended;
  }

  pub source_fails-StreamInv :
      (received : Heard) (e : E) (s : Stream E)
      → StreamInv received s
      → StreamInv received (source_fails e s).0
  unfolding source_fails
  source_fails-StreamInv received e s v =
      if-intro (λ (p : Stream E × List Effect). StreamInv received p.0) s.closed _ _
        (λ _. record { accounts = v.accounts; over = v.over })
        (λ _. record {
          accounts = fail_each overflow truthy received e s.slots v.accounts;
          over = λ _. each-IsOver (fail e) s.slots (fail-ended e);
        })

  caught-StreamInv :
      (received : Heard) (o : Option E) (s : Stream E)
      → StreamInv received s
      → StreamInv received (caught o s).0
  unfolding caught
  caught-StreamInv received none s v = v
  caught-StreamInv received (some e) s v =
      source_fails-StreamInv received e (record s { leaving = none })
        (record { accounts = v.accounts; over = v.over })

  pub returned-StreamInv :
      (received : Heard) (s : Stream E) → StreamInv received s → StreamInv received (returned s).0
  unfolding returned
  returned-StreamInv received s v = caught-StreamInv received s.leaving s v

  -- Asking again changes neither which queues have ended nor which are attached.
  next-ended : (w : ℕ) (q : Queue Event E) → (next truthy w q).0.ended ≡ q.ended
  unfolding next
  next-ended w q = ground arith

  at-IsOver :
      (i w : ℕ) (xs : List (Slot E))
      → All IsOver xs
      → All IsOver (at_iterator i (call_queue (next truthy w)) xs)
  unfolding at_iterator call_queue
  at-IsOver i w [] h = tt
  at-IsOver i w (x ∷ xs) h = (
    if-intro IsOver (x.iterator == i) _ x
        (λ _. elim h.0 [ inl off_air ↦ inl off_air | inr over ↦ inr (next-ended w x.queue ∙ over) ])
        (λ _. h.0),
    at-IsOver i w xs h.1,
  )

  pub resume-StreamInv :
      (received : Heard) (i w : ℕ) (s : Stream E)
      → StreamInv received s
      → All (λ x. x.iterator ≡ i → (x.attached ≡ true) ⊎ (x.queue.ended ≡ true)) s.slots
      → StreamInv received (resume truthy i w s)
  unfolding resume
  resume-StreamInv received i w s v ok = record {
    accounts = at-SlotInv overflow truthy received i w s.slots v.accounts ok;
    over = λ c. at-IsOver i w s.slots (v.over c);
  }

  pub leave-accounts :
      (received : Heard) (i : ℕ) (xs : List (Slot E))
      → All (Account received) xs
      → All (λ x. x.iterator ≡ i → x.queue.waiters ≡ []) xs
      → All (Account received) (at_iterator i detached xs)
  unfolding at_iterator
  leave-accounts received i [] h k = tt
  leave-accounts received i (x ∷ xs) h k = (
    if-intro (Account received) (x.iterator == i) (detached x) x
        (λ same. detached-SlotInv (received x.iterator) x h.0 (k.0 ((==_iff _ _).0 same)))
        (λ _. h.0),
    leave-accounts received i xs h.1 k.1,
  )

  pub leave-IsOver :
      (i : ℕ) (xs : List (Slot E)) → All IsOver xs → All IsOver (at_iterator i detached xs)
  unfolding at_iterator
  leave-IsOver i [] h = tt
  leave-IsOver i (x ∷ xs) h = (
    if-intro IsOver (x.iterator == i) (detached x) x (λ _. inl refl) (λ _. h.0),
    leave-IsOver i xs h.1,
  )

module _ {E : Type 0} where
  start-slots : (s : Stream E) → (start s).slots ≡ s.slots
  unfolding start
  start-slots s = ground arith

  pub reset-accounts :
      (received : Heard) (i : ℕ) (xs : List (Slot E))
      → All (Account received) xs
      → All (λ x. x.iterator ≢ i) xs
      → All (Account (reset i received)) xs
  reset-accounts received i [] h k = tt
  reset-accounts received i (x ∷ xs) h k = (
    subst (λ r. SlotInv r x)
        (ap (λ (b : Bool). if b then [] else received x.iterator) (sym (eq_false x.iterator i k.0)))
        h.0,
    reset-accounts received i xs h.1 k.1,
  )

  pub with_slot-StreamInv :
      (received : Heard) (i : ℕ) (s : Stream E)
      → StreamInv (reset i received) s
      → s.closed ≡ false
      → StreamInv (reset i received) (with_slot i s)
  unfolding init
  with_slot-StreamInv received i s v open_ = record {
    accounts = All-append (Account (reset i received)) s.slots _ v.accounts (fresh, tt);
    over = λ c. absurd (false≢true (sym open_ ∙ c));
  }
    where
      unheard : [] ≡ reset i received i
      unheard = ap (λ (b : Bool). if b then [] else received i) (sym (==_refl i))

      fresh :
          Account {E = E} (reset i received) (record {
            iterator = i;
            queue = init s.iterator_buffer;
            attached = true;
            answered = [];
          })
      fresh = record {
        sound = init-Inv s.iterator_buffer;
        fed = record { lost = []; in_order = sym unheard; none_lost = inl refl };
        quiet = λ off_air. absurd (false≢true (sym off_air));
      }

  fresh-live :
      (i buffer : ℕ) (xs : List (Slot E))
      → All (λ x. x.iterator ≢ i) xs
      → All
          (λ x. x.iterator ≡ i → (x.attached ≡ true) ⊎ (x.queue.ended ≡ true))
          (xs
            ++ (record { iterator = i; queue = init buffer; attached = true; answered = [] } ∷ []))
  fresh-live i buffer [] h = ((λ _. inl refl), tt)
  fresh-live i buffer (x ∷ xs) h = ((λ e. absurd (h.0 e)), fresh-live i buffer xs h.1)

module _ {E : Type 0} (overflow : ℕ → E) (truthy : E → Bool) (throws : ℕ → Event → Option E) where
  pub begin-StreamInv :
      (received : Heard) (i w : ℕ) (s : Stream E)
      → StreamInv received s
      → All (λ x. x.iterator ≢ i) s.slots
      → StreamInv (reset i received) (begin truthy i w s).0
  unfolding begin
  begin-StreamInv received i w s v new =
      let v' : StreamInv (reset i received) s = record {
        accounts = reset-accounts received i s.slots v.accounts new;
        over = v.over;
      } in
      if-intro (λ (p : Stream E × List Effect). StreamInv (reset i received) p.0) s.closed _ _
        (λ _. v')
        (λ open_.
          resume-StreamInv overflow truthy (reset i received) i w (start (with_slot i s))
            (start-StreamInv (reset i received) (with_slot i s)
              (with_slot-StreamInv received i s v' open_))
            (subst (All (λ x. x.iterator ≡ i → (x.attached ≡ true) ⊎ (x.queue.ended ≡ true)))
              (sym (start-slots (with_slot i s))) (fresh-live i s.iterator_buffer s.slots new)))

  pub notified-StreamInv :
      (received : Heard) (e : Event) (s : Stream E) (n : List Effect × Option E)
      → StreamInv received s
      → s.closed ≡ false
      → StreamInv
          (heard_more received (handed overflow truthy throws e n.1))
          (after_notify overflow e s n).0
  unfolding after_notify step
  notified-StreamInv received e s (out, none) v open_ = record {
    accounts = each-SlotInv overflow truthy received (pushes e) s.slots v.accounts;
    over = λ c. absurd (false≢true (sym open_ ∙ c));
  }
  notified-StreamInv received e s (out, some x) v open_ =
      nothing_new received _ (record { accounts = v.accounts; over = v.over })

  pub receive-StreamInv :
      (received : Heard) (r : Option Event) (s : Stream E)
      → StreamInv received s
      → StreamInv
          (heard_more received (accepted overflow truthy throws (receives r) s))
          (receive overflow throws r s).0
  unfolding receive
  receive-StreamInv received none s v = nothing_new received _ (
      if-intro (λ (p : Stream E × List Effect). StreamInv received p.0) s.closed _ _
        (λ _. record { accounts = v.accounts; over = v.over }) (λ _. v))
  receive-StreamInv received (some e) s v = heard s.closed refl
    where
      heard :
          (b : Bool)
          → s.closed ≡ b
          → StreamInv
              (heard_more received (
                if b
                then []
                else handed overflow truthy throws e
                    (notify throws (listeners_of e s.listeners) e).1))
              (if b
                then (record s { pumping = false }, [])
                else after_notify overflow e s (notify throws (listeners_of e s.listeners) e)).0
      heard true c = nothing_new received _ (record { accounts = v.accounts; over = v.over })
      heard false c = notified-StreamInv received e s _ v c
