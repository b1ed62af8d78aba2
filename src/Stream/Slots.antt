-- ===== src/Stream/Slots.antt =====
-- EventStream: what one iterator has been given, against the events that the pump has received.
use meta_go.Prelude.{
  ℕ, ◌≡◌, refl, sym, ap, ◌∙◌, Bool, true, false, List, [], ◌∷◌, ◌++◌, append_assoc, append-nil, ◌⊎◌,
  inl, inr, Bool-cases,
}
use mathlib.Core.Bool.{false≢true}
use meta_go.Queue.{Call, step}
use meta_go.Queue.Invariant.{Inv, step-Inv, ended-waiters}
use meta_go.Queue.Delivery.{delivered, pushed, delivered-append, step-ended, step-open}
use meta_go.Proto.Event.{Event}
use meta_go.Stream.{Slot, call_queue, detached}

module _ {E : Type 0} where
  -- `received` is what the iterator has been given, then what waits in its queue, then what is lost to
  -- it; nothing is lost while its queue is attached and open.
  pub record IsFed (received : List Event) (x : Slot E) : Type 0 where
    pub lost : List Event
    pub in_order : received ≡ delivered x.answered ++ (x.queue.values ++ lost)
    pub none_lost : (lost ≡ []) ⊎ ((x.queue.ended ≡ true) ⊎ (x.attached ≡ false))

  pub record SlotInv (received : List Event) (x : Slot E) : Type 0 where
    pub sound : Inv x.queue
    pub fed : IsFed received x
    pub quiet : x.attached ≡ false → x.queue.waiters ≡ []

grow :
    {V : Type 0} (a v lost p o v' lost' : List V)
    → v ++ (lost ++ p) ≡ o ++ (v' ++ lost')
    → (a ++ (v ++ lost)) ++ p ≡ (a ++ o) ++ (v' ++ lost')
grow a v lost p o v' lost' e =
    append_assoc a (v ++ lost) p
    ∙ ap (λ l. a ++ l) (append_assoc v lost p ∙ e)
    ∙ sym (append_assoc a o (v' ++ lost'))

module _ {E : Type 0} (overflow : ℕ → E) (truthy : E → Bool) where
  module _ (received : List Event) (x : Slot E) (c : Call Event E) (i : SlotInv received x)
      (live : (x.attached ≡ true) ⊎ (x.queue.ended ≡ true)) where
    abbrev out : List Event
    out = delivered (step overflow truthy x.queue c).1

    abbrev left : List Event
    left = (step overflow truthy x.queue c).0.values

    still_in_order :
        (lost' : List Event)
        → x.queue.values ++ (i.fed.lost ++ pushed (c ∷ [])) ≡ out ++ (left ++ lost')
        → received ++ pushed (c ∷ [])
          ≡ delivered (x.answered ++ (step overflow truthy x.queue c).1) ++ (left ++ lost')
    still_in_order lost' e = rw (delivered-append x.answered (step overflow truthy x.queue c).1) (
        ap (λ l. l ++ pushed (c ∷ [])) i.fed.in_order
        ∙ grow (delivered x.answered) x.queue.values i.fed.lost (pushed (c ∷ [])) out left lost' e)

    on_air : x.queue.ended ≡ false → x.attached ≡ true
    on_air open_ = elim live [ inl h ↦ h | inr h ↦ absurd (false≢true (sym open_ ∙ h)) ]

    lossless : x.queue.ended ≡ false → i.fed.lost ≡ []
    lossless open_ = elim i.fed.none_lost [
      | inl e ↦ e
      | inr end_ ↦ elim end_ [
        | inl over ↦ absurd (false≢true (sym open_ ∙ over))
        | inr off_air ↦ absurd (false≢true (sym off_air ∙ on_air open_))
      ]
    ]

    call_queue-IsFed :
        IsFed (received ++ pushed (c ∷ [])) (call_queue (λ q. step overflow truthy q c) x)
    unfolding call_queue
    call_queue-IsFed = elim (Bool-cases x.queue.ended) [
      | inl over ↦
          let (e, over') = step-ended overflow truthy x.queue c over in
          record {
            lost = i.fed.lost ++ pushed (c ∷ []);
            in_order =
                still_in_order (i.fed.lost ++ pushed (c ∷ []))
                  (ap (λ l. l ++ (i.fed.lost ++ pushed (c ∷ []))) e ∙ append_assoc out left _);
            none_lost = inr (inl over');
          }
      | inr open_ ↦
          let nothing = lossless open_ in
          elim (step-open overflow truthy x.queue c i.sound open_) [
            | inl (open', e) ↦ record {
              lost = [];
              in_order = still_in_order [] (
                  ap (λ l. x.queue.values ++ (l ++ pushed (c ∷ []))) nothing
                  ∙ e
                  ∙ ap (λ l. out ++ l) (sym (append-nil left)));
              none_lost = inl refl;
            }
            | inr (over, e) ↦ record {
              lost = pushed (c ∷ []);
              in_order = still_in_order (pushed (c ∷ [])) (
                  ap (λ l. x.queue.values ++ (l ++ pushed (c ∷ []))) nothing
                  ∙ ap (λ l. l ++ pushed (c ∷ [])) e
                  ∙ append_assoc out left (pushed (c ∷ [])));
              none_lost = inr (inl over);
            }
          ]
    ]

    -- A call of a method of a queue keeps the slot's account, if the queue is attached or has ended.
    pub call_queue-SlotInv :
        SlotInv (received ++ pushed (c ∷ [])) (call_queue (λ q. step overflow truthy q c) x)
    unfolding call_queue
    call_queue-SlotInv = record {
      sound = step-Inv overflow truthy x.queue c i.sound;
      fed = call_queue-IsFed;
      quiet = λ off_air. elim live [
        | inl h ↦ absurd (false≢true (sym off_air ∙ h))
        | inr over ↦
            ended-waiters _ (step-Inv overflow truthy x.queue c i.sound)
              (step-ended overflow truthy x.queue c over).1
      ];
    }

module _ {E : Type 0} where
  -- A slot that has left the stream misses what is received from then on.
  pub missed-SlotInv :
      (received more : List Event) (x : Slot E)
      → SlotInv received x
      → x.attached ≡ false
      → SlotInv (received ++ more) x
  missed-SlotInv received more x i off_air = record {
    sound = i.sound;
    fed = record {
      lost = i.fed.lost ++ more;
      in_order =
          ap (λ l. l ++ more) i.fed.in_order
          ∙ append_assoc (delivered x.answered) (x.queue.values ++ i.fed.lost) more
          ∙ ap (λ l. delivered x.answered ++ l) (append_assoc x.queue.values i.fed.lost more);
      none_lost = inr (inr off_air);
    };
    quiet = i.quiet;
  }

  -- Leaving is allowed when no promise of the iterator is pending.
  pub detached-SlotInv :
      (received : List Event) (x : Slot E)
      → SlotInv received x
      → x.queue.waiters ≡ []
      → SlotInv received (detached x)
  detached-SlotInv received x i none_waits = record {
    sound = i.sound;
    fed = record { lost = i.fed.lost; in_order = i.fed.in_order; none_lost = inr (inr refl) };
    quiet = λ _. none_waits;
  }
