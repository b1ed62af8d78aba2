-- ===== src/Client/Lifecycle/Streams.antt =====
-- sdk/node/src/client.ts: the Set `eventStreams` and the streams of a client.
use meta_go.Prelude.{
  ℕ, ◌≡◌, refl, sym, ap, ◌∙◌, Bool, true, false, not, ◌||◌, List, [], ◌∷◌, ◌++◌, map, Option, none,
  some, All, All-append, if-intro, arith, ◌==◌, if◌then◌else◌,
}
use meta_go.Proto.Event.{Event}
use meta_go.Stream.{
  Stream, Effect, start, on, off, resume, begin, leave, close_stream, source_ends, source_fails,
  caught, returned, new_stream, notify, after_notify, receive,
}
use meta_go.Stream.Listeners.{listeners_of}
use meta_go.Stream.Actions.{
  Action, subscribes, unsubscribes, closes_stream, begins, resumes, leaves, receives, ends, breaks,
  returns, act,
}
use meta_go.Client.Lifecycle.{
  Member, Client, ClientAction, opens, acts, closes, ClientEffect, is_on_close, any_on_close,
  new_client, events, after_action, close_member, close_members, unregistered, close_client,
  act_member, client_step, client_run,
}

any_on_close-append :
    (xs ys : List Effect) → any_on_close (xs ++ ys) ≡ any_on_close xs || any_on_close ys
unfolding any_on_close
any_on_close-append [] ys = refl
any_on_close-append (x ∷ xs) ys =
    elim (is_on_close x)
      as (λ b. (b || any_on_close (xs ++ ys)) ≡ ((b || any_on_close xs) || any_on_close ys)) [
        | true ↦ refl
        | false ↦ any_on_close-append xs ys
      ]

-- A stream of a client is in the Set just while it is open.
abbrev pub IsMember : {E : Type 0} → Member E → Type 0
IsMember m = m.registered ≡ not m.stream.closed

true≢false : true ≡ false → ⊥
true≢false h = cc

module _ {E : Type 0} (overflow : ℕ → E) (truthy : E → Bool) (throws : ℕ → Event → Option E) where
  notify-quiet : (ls : List ℕ) (e : Event) → any_on_close (notify throws ls e).0 ≡ false
  unfolding notify any_on_close
  notify-quiet [] e = refl
  notify-quiet (l ∷ ls) e = ground (arith, notify-quiet ls e)

  after_notify-closed :
      (e : Event) (s : Stream E) (n : List Effect × Option E)
      → s.closed ≡ false
      → any_on_close n.0 ≡ false
      → (after_notify overflow e s n).0.closed ≡ any_on_close (after_notify overflow e s n).1
  unfolding after_notify any_on_close
  after_notify-closed e s (out, none) c q = ground arith
  after_notify-closed e s (out, some x) c q = ground arith

  returned-on_close :
      (s : Stream E) → (returned s).0.closed ≡ (s.closed || any_on_close (returned s).1)
  unfolding returned caught source_fails any_on_close
  returned-on_close s = ground arith

  -- A stream closes just when it calls `onClose`.
  act-on_close :
      (a : Action E) (s : Stream E)
      → (act overflow truthy throws a s).0.closed
        ≡ (s.closed || any_on_close (act overflow truthy throws a s).1)
  unfolding act on off start resume begin leave close_stream source_ends source_fails receive
      any_on_close
  act-on_close (subscribes name l) s = ground arith
  act-on_close (unsubscribes id l) s = ground arith
  act-on_close closes_stream s = ground arith
  act-on_close (begins i w) s = ground arith
  act-on_close (resumes i w) s = ground arith
  act-on_close (leaves i) s = ground arith
  act-on_close (receives none) s = ground arith
  act-on_close (receives (some e)) s =
      if-intro (λ (r : Stream E × List Effect). r.0.closed ≡ (s.closed || any_on_close r.1))
        s.closed _ _ (λ h. rw h refl)
        (λ h.
          after_notify-closed e s (notify throws heard e) h (notify-quiet heard e)
          ∙ ap (λ b. b || any_on_close (after_notify overflow e s (notify throws heard e)).1)
              (sym h))
    where
      heard : List ℕ
      heard = listeners_of e s.listeners
  act-on_close ends s = ground arith
  act-on_close returns s = returned-on_close s
  act-on_close (breaks e) s = ground arith

  after_action-IsMember :
      (a : Action E) (m : Member E)
      → IsMember m
      → IsMember (after_action m (act overflow truthy throws a m.stream)).0
  unfolding after_action
  after_action-IsMember a m h = swap _ _ _ _ h (act-on_close a m.stream)
    where
      swap : (x r c d : Bool) → r ≡ not c → d ≡ (c || x) → (if x then false else r) ≡ not d
      swap true r true d h k = ap not (sym k)
      swap true r false d h k = ap not (sym k)
      swap false r true d h k = h ∙ ap not (sym k)
      swap false r false d h k = h ∙ ap not (sym k)

  close_member-closed : (m : Member E) → IsMember m → (close_member m).0.stream.closed ≡ true
  unfolding close_member after_action close_stream
  close_member-closed m h = ground (arith)

  close_members-closed :
      (ms : List (Member E))
      → All IsMember ms
      → All (λ m. m.stream.closed ≡ true) (map unregistered (close_members ms).0)
  unfolding close_members
  close_members-closed [] h = tt
  close_members-closed (m ∷ ms) (h, hs) = (close_member-closed m h, close_members-closed ms hs)

  unregistered-IsMember :
      (ms : List (Member E))
      → All (λ m. m.stream.closed ≡ true) (map unregistered ms)
      → All IsMember (map unregistered ms)
  unregistered-IsMember [] h = tt
  unregistered-IsMember (m ∷ ms) (h, hs) = (ap not (sym h), unregistered-IsMember ms hs)

  act_member-IsMember :
      (i : ℕ) (a : Action E) (ms : List (Member E))
      → All IsMember ms
      → All IsMember (act_member overflow truthy throws i a ms).0
  unfolding act_member
  act_member-IsMember i a [] h = tt
  act_member-IsMember i a (m ∷ ms) (h, hs) =
      if-intro (λ (r : List (Member E) × List ClientEffect). All IsMember r.0) (m.id == i) _ _
        (λ e. (after_action-IsMember a m h, hs)) (λ e. (h, act_member-IsMember i a ms hs))

  client_step-IsMember :
      (a : ClientAction E) (c : Client E)
      → All IsMember c.members
      → All IsMember (client_step overflow truthy throws a c).0.members
  unfolding client_step events new_stream close_client
  client_step-IsMember (opens id o) c h = All-append _ c.members _ h (refl, tt)
  client_step-IsMember (acts i a) c h = act_member-IsMember i a c.members h
  client_step-IsMember closes c h =
      if-intro (λ (r : Client E × List ClientEffect). All IsMember r.0.members) c.closed _ _
        (λ e. h)
        (λ e. unregistered-IsMember (close_members c.members).0 (close_members-closed c.members h))

  client_run-IsMember :
      (rest : List (ClientAction E)) (c : Client E)
      → All IsMember c.members
      → All IsMember (client_run overflow truthy throws rest c).members
  unfolding client_run
  client_run-IsMember [] c h = h
  client_run-IsMember (a ∷ rest) c h = client_run-IsMember rest _ (client_step-IsMember a c h)

  unregistered-All :
      (ms : List (Member E))
      → All (λ m. m.stream.closed ≡ true) (map unregistered ms)
      → All (λ m. (m.stream.closed ≡ true) × (m.registered ≡ false)) (map unregistered ms)
  unregistered-All [] h = tt
  unregistered-All (m ∷ ms) (h, hs) = ((h, refl), unregistered-All ms hs)

  close_client-closes :
      (c : Client E)
      → c.closed ≡ false
      → All IsMember c.members
      → All (λ m. (m.stream.closed ≡ true) × (m.registered ≡ false)) (close_client c).0.members
  unfolding close_client
  close_client-closes c o h =
      if-intro
        (λ (r : Client E × List ClientEffect).
          All (λ m. (m.stream.closed ≡ true) × (m.registered ≡ false)) r.0.members)
        c.closed _ _ (λ e. absurd (true≢false (sym e ∙ o)))
        (λ e. unregistered-All (close_members c.members).0 (close_members-closed c.members h))

  -- After any run of a new client, each stream that it made is in the Set just while the stream is
  -- open.
  pub new_client-run-IsMember :
      (rest : List (ClientAction E)) (managed : Bool)
      → All IsMember (client_run overflow truthy throws rest (new_client managed)).members
  unfolding new_client
  new_client-run-IsMember rest managed = client_run-IsMember rest (new_client managed) tt

  -- When `close` is called on a client that is not closed yet, after any run of a new client, every
  -- stream that the client ever made is closed, and the Set is empty.
  pub client_run-closes :
      (rest : List (ClientAction E)) (managed : Bool)
      → (client_run overflow truthy throws rest (new_client managed)).closed ≡ false
      → All
          (λ m. (m.stream.closed ≡ true) × (m.registered ≡ false))
          (close_client (client_run overflow truthy throws rest (new_client managed))).0.members
  client_run-closes rest managed h =
      close_client-closes (client_run overflow truthy throws rest (new_client managed)) h
        (new_client-run-IsMember rest managed)
