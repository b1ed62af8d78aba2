-- ===== src/Queue/Promises.antt =====
-- EventQueue: every `next()` is answered once, in the order of the calls.
use meta_go.Prelude.{
  ℕ, ◌≡◌, refl, sym, ap, ◌∙◌, Bool, true, List, [], ◌∷◌, ◌++◌, map, arith, append_assoc, append-nil,
  map-append,
}
use meta_go.Queue.{
  Queue, Outcome, done, rejected, Settled, Call, pushes, nexts, closes, fails, settle_all, close,
  fail, push, next, step, run,
}
use meta_go.Queue.Invariant.{Inv, ended-waiters, step-Inv, run-Inv}

module _ {V E : Type 0} where
  -- The promises that are settled, in order.
  abbrev pub askers : Settled V E → List ℕ
  askers = map (λ s. s.0)

  -- The promises that the reader is given, in order.
  abbrev pub asked : List (Call V E) → List ℕ
  asked [] = []
  asked (pushes v ∷ cs) = asked cs
  asked (nexts w ∷ cs) = w ∷ asked cs
  asked (closes ∷ cs) = asked cs
  asked (fails e ∷ cs) = asked cs

  asked-cons : (c : Call V E) (cs : List (Call V E)) → asked (c ∷ cs) ≡ asked (c ∷ []) ++ asked cs
  asked-cons (pushes v) cs = refl
  asked-cons (nexts w) cs = refl
  asked-cons closes cs = refl
  asked-cons (fails e) cs = refl

  askers-settle_all : (o : Outcome V E) (ws : List ℕ) → askers (settle_all o ws) ≡ ws
  unfolding settle_all
  askers-settle_all o [] = refl
  askers-settle_all o (w ∷ ws) = ap (λ (l : List ℕ). w ∷ l) (askers-settle_all o ws)

module _ {V E : Type 0} (overflow : ℕ → E) (truthy : E → Bool) where
  step-asked :
      (q : Queue V E) (c : Call V E)
      → Inv q
      → askers (step overflow truthy q c).1 ++ (step overflow truthy q c).0.waiters
        ≡ q.waiters ++ asked (c ∷ [])
  unfolding step push next close fail
  step-asked q (pushes v) i =
      ground (arith, append-nil q.waiters, askers-settle_all failed q.waiters)
    where
      failed : Outcome V E
      failed = rejected (overflow q.limit)
  step-asked q (nexts w) i = ground (arith, append-nil q.waiters)
  step-asked q closes i = ground (arith, append-nil q.waiters, askers-settle_all ended q.waiters)
    where
      ended : Outcome V E
      ended = done
  step-asked q (fails e) i =
      ground (arith, append-nil q.waiters, askers-settle_all failed q.waiters)
    where
      failed : Outcome V E
      failed = rejected e

  -- From a queue that meets the invariant, promises settle in the order in which the reader asked,
  -- each once; those that are not settled yet are exactly the waiters of the queue.
  pub run-asked :
      (q : Queue V E) (cs : List (Call V E))
      → Inv q
      → askers (run overflow truthy q cs).1 ++ (run overflow truthy q cs).0.waiters
        ≡ q.waiters ++ asked cs
  unfolding run
  run-asked q [] i = sym (append-nil q.waiters)
  run-asked q (c ∷ cs) i =
      let q' = (step overflow truthy q c).0 in
      let out = (step overflow truthy q c).1 in
      let more = (run overflow truthy q' cs).1 in
      ap (λ (l : List ℕ). l ++ (run overflow truthy q' cs).0.waiters)
        (map-append (λ s. s.0) out more)
      ∙ append_assoc (askers out) (askers more) _
      ∙ ap (λ (l : List ℕ). askers out ++ l) (run-asked q' cs (step-Inv overflow truthy q c i))
      ∙ sym (append_assoc (askers out) q'.waiters (asked cs))
      ∙ ap (λ (l : List ℕ). l ++ asked cs) (step-asked q c i)
      ∙ append_assoc q.waiters (asked (c ∷ [])) (asked cs)
      ∙ ap (λ (l : List ℕ). q.waiters ++ l) (sym (asked-cons c cs))

  -- When a queue that met the invariant has ended, no reader is left waiting: every promise has
  -- settled, in the order in which the reader asked.
  pub run-ended-asked :
      (q : Queue V E) (cs : List (Call V E))
      → Inv q
      → (run overflow truthy q cs).0.ended ≡ true
      → askers (run overflow truthy q cs).1 ≡ q.waiters ++ asked cs
  run-ended-asked q cs i h =
      sym (append-nil _)
      ∙ ap (λ (l : List ℕ). askers (run overflow truthy q cs).1 ++ l)
          (sym (ended-waiters _ (run-Inv overflow truthy q cs i) h))
      ∙ run-asked q cs i
