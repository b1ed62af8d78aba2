-- ===== src/Queue/Delivery.antt =====
-- EventQueue: which events reach the reader, in which order, and what happens after the end.
use meta_go.Prelude.{
  ℕ, ◌≡◌, refl, sym, ap, ◌∙◌, ◌⊎◌, inl, inr, Bool, true, false, List, [], ◌∷◌, ◌++◌, map, arith,
  append_assoc, append-nil, Bool-cases, if◌then◌else◌,
}
use meta_go.Queue.{
  Queue, Outcome, value, done, rejected, Settled, Call, pushes, nexts, closes, fails, is_truthy,
  rejection, settle_all, close, fail, push, next, step, run,
}
use meta_go.Queue.Invariant.{Inv, step-Inv}

module _ {V E : Type 0} where
  -- The events among the settled promises, in order.
  abbrev pub delivered : Settled V E → List V
  delivered [] = []
  delivered ((w, value v) ∷ s) = v ∷ delivered s
  delivered ((w, done) ∷ s) = delivered s
  delivered ((w, rejected e) ∷ s) = delivered s

  -- The events that the pump has handed over, in order.
  abbrev pub pushed : List (Call V E) → List V
  pushed [] = []
  pushed (pushes v ∷ cs) = v ∷ pushed cs
  pushed (nexts w ∷ cs) = pushed cs
  pushed (closes ∷ cs) = pushed cs
  pushed (fails e ∷ cs) = pushed cs

  -- The answers that a queue which has ended gives: the buffered events, then its end.
  abbrev pub answers : Outcome V E → List V → List ℕ → Settled V E
  answers o vs [] = []
  answers o [] (w ∷ ws) = (w, o) ∷ answers o [] ws
  answers o (v ∷ vs) (w ∷ ws) = (w, value v) ∷ answers o vs ws

  abbrev pub last_word : (E → Bool) → Queue V E → Outcome V E
  last_word truthy q = if is_truthy truthy q.error then rejection q.error else done

  pub delivered-append : (s t : Settled V E) → delivered (s ++ t) ≡ delivered s ++ delivered t
  delivered-append [] t = refl
  delivered-append ((w, value v) ∷ s) t = ap (λ (l : List V). v ∷ l) (delivered-append s t)
  delivered-append ((w, done) ∷ s) t = delivered-append s t
  delivered-append ((w, rejected e) ∷ s) t = delivered-append s t

  joined :
      (s t : Settled V E) (rest : List V)
      → delivered s ++ (delivered t ++ rest) ≡ delivered (s ++ t) ++ rest
  joined s t rest = rw (delivered-append s t) (sym (append_assoc (delivered s) (delivered t) rest))

  pushed-cons :
      (c : Call V E) (cs : List (Call V E)) → pushed (c ∷ cs) ≡ pushed (c ∷ []) ++ pushed cs
  pushed-cons (pushes v) cs = refl
  pushed-cons (nexts w) cs = refl
  pushed-cons closes cs = refl
  pushed-cons (fails e) cs = refl

  abbrev IsFinal : Outcome V E → Type 0
  IsFinal (value v) = ⊥
  IsFinal done = Unit
  IsFinal (rejected e) = Unit

  delivered-settle_all :
      (o : Outcome V E) (ws : List ℕ) → IsFinal o → delivered (settle_all o ws) ≡ []
  unfolding settle_all
  delivered-settle_all o [] h = refl
  delivered-settle_all (value v) (w ∷ ws) h = absurd h
  delivered-settle_all done (w ∷ ws) h = delivered-settle_all done ws h
  delivered-settle_all (rejected e) (w ∷ ws) h = delivered-settle_all (rejected e) ws h

module _ {V E : Type 0} (overflow : ℕ → E) (truthy : E → Bool) where
  -- Once the queue has ended, only buffered events are delivered.
  pub step-ended :
      (q : Queue V E) (c : Call V E)
      → q.ended ≡ true
      → (q.values ≡ delivered (step overflow truthy q c).1 ++ (step overflow truthy q c).0.values)
        × ((step overflow truthy q c).0.ended ≡ true)
  unfolding step push next close fail
  step-ended q (pushes v) h = ground arith
  step-ended q (nexts w) h = ground arith
  step-ended q closes h = ground arith
  step-ended q (fails e) h = ground arith

  -- A step on an open queue loses nothing unless it ends the queue.
  pub step-open :
      (q : Queue V E) (c : Call V E)
      → Inv q
      → q.ended ≡ false
      → let r = step overflow truthy q c in
        ((r.0.ended ≡ false) × (q.values ++ pushed (c ∷ []) ≡ delivered r.1 ++ r.0.values))
        ⊎ ((r.0.ended ≡ true) × (q.values ≡ delivered r.1 ++ r.0.values))
  unfolding step push next close fail
  step-open q (pushes v) i h =
      ground (arith, append-nil q.values, delivered-settle_all failed q.waiters tt)
    where
      failed : Outcome V E
      failed = rejected (overflow q.limit)
  step-open q (nexts w) i h = ground (arith, append-nil q.values)
  step-open q closes i h = ground (arith, delivered-settle_all ended q.waiters tt)
    where
      ended : Outcome V E
      ended = done
  step-open q (fails e) i h = ground (arith, delivered-settle_all failed q.waiters tt)
    where
      failed : Outcome V E
      failed = rejected e

  run-ended :
      (q : Queue V E) (cs : List (Call V E))
      → q.ended ≡ true
      → (q.values ≡ delivered (run overflow truthy q cs).1 ++ (run overflow truthy q cs).0.values)
        × ((run overflow truthy q cs).0.ended ≡ true)
  unfolding run
  run-ended q [] h = (refl, h)
  run-ended q (c ∷ cs) h =
      let (e, h') = step-ended q c h in
      let (es, h'') = run-ended (step overflow truthy q c).0 cs h' in
      (
        e
            ∙ ap (λ (l : List V). delivered (step overflow truthy q c).1 ++ l) es
            ∙ joined (step overflow truthy q c).1
                (run overflow truthy (step overflow truthy q c).0 cs).1 _,
        h'',
      )

  -- The history, split at the step that ends the queue.
  run-ordered :
      (q : Queue V E) (cs : List (Call V E))
      → Inv q
      → q.ended ≡ false
      → let r = run overflow truthy q cs in
        (lost : List V) × (q.values ++ pushed cs ≡ delivered r.1 ++ (r.0.values ++ lost))
        × (r.0.ended ≡ false → lost ≡ [])
  unfolding run
  run-ordered q [] i h = ([], refl, λ _. refl)
  run-ordered q (c ∷ cs) i h = elim (step-open q c i h) [
    | inl (h', e) ↦
        let (lost, es, open_) =
          run-ordered (step overflow truthy q c).0 cs (step-Inv overflow truthy q c i) h' in
        (
          lost,
          ap (λ (l : List V). q.values ++ l) (pushed-cons c cs)
              ∙ sym (append_assoc q.values (pushed (c ∷ [])) (pushed cs))
              ∙ ap (λ (l : List V). l ++ pushed cs) e
              ∙ append_assoc (delivered (step overflow truthy q c).1) _ (pushed cs)
              ∙ ap (λ (l : List V). delivered (step overflow truthy q c).1 ++ l) es
              ∙ joined (step overflow truthy q c).1
                  (run overflow truthy (step overflow truthy q c).0 cs).1 _,
          open_,
        )
    | inr (h', e) ↦
        let (es, h'') = run-ended (step overflow truthy q c).0 cs h' in
        (
          pushed (c ∷ cs),
          ap (λ (l : List V). l ++ pushed (c ∷ cs))
                (e ∙ ap (λ (l : List V). delivered (step overflow truthy q c).1 ++ l) es)
              ∙ append_assoc (delivered (step overflow truthy q c).1) _ (pushed (c ∷ cs))
              ∙ ap (λ (l : List V). delivered (step overflow truthy q c).1 ++ l)
                  (append_assoc _ _ (pushed (c ∷ cs)))
              ∙ joined (step overflow truthy q c).1
                  (run overflow truthy (step overflow truthy q c).0 cs).1 _,
          λ o. ground arith,
        )
  ]

  -- From an open queue that meets the invariant, events are delivered in the order in which they
  -- are pushed, none twice and none skipped; what is `lost` is a tail of them, and there is none
  -- unless the queue has ended.
  pub run-IsOrdered :
      (q : Queue V E) (cs : List (Call V E))
      → Inv q
      → q.ended ≡ false
      → let r = run overflow truthy q cs in
        (lost : List V) × (q.values ++ pushed cs ≡ delivered r.1 ++ (r.0.values ++ lost))
        × ((lost ≡ []) ⊎ (r.0.ended ≡ true))
  run-IsOrdered q cs i h =
      let (lost, e, kept) = run-ordered q cs i h in
      (
        lost,
        e,
        elim (Bool-cases (run overflow truthy q cs).0.ended) [
          | inl o ↦ inr o
          | inr o ↦ inl (kept o)
        ],
      )

  -- A reader of a queue that has ended gets every buffered event, in order, and then at each further
  -- call the error that ended the queue, or the end of the iteration if there was none.
  pub run-drains :
      (q : Queue V E) (ws : List ℕ)
      → q.ended ≡ true
      → (run overflow truthy q (map nexts ws)).1 ≡ answers (last_word truthy q) q.values ws
  unfolding run step next
  run-drains q [] h = refl
  run-drains q (w ∷ ws) h = ground (arith, run-drains (next truthy w q).0 ws)
