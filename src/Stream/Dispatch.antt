-- ===== src/Stream/Dispatch.antt =====
-- EventStream: which listeners an event reaches, and which a subscription adds.
use mathlib.Core.Bool.{false≢true}
use text.Mathlib.Text.{◌==◌ as str_eq}
use text.Mathlib.TextEquality.{eq_iff}
use meta_go.Prelude.{
  ℕ, ◌≡◌, ◌≢◌, refl, ◌⊎◌, inl, inr, ◌++◌, subst, sym, ◌∙◌, if-intro, false, String, List, [], ◌∷◌,
  map, Option, none, some, All, arith, if◌then◌else◌,
}
use meta_go.Proto.Event.{Event}
use meta_go.Stream.{Stream, calls, notify, after_notify, receive}
use meta_go.Stream.Listeners.{
  ListenerSet, subscribe, add_member, listening, listeners_of, IsIn, add_member_lem,
}

listening-if :
    (name other : String) (l fresh : ℕ) (ls : List ListenerSet)
    → listening other (subscribe name l fresh ls)
      ≡ (if str_eq name other then add_member l (listening name ls) else listening other ls)
unfolding listening subscribe
listening-if name other l fresh [] = refl
listening-if name other l fresh (x ∷ xs) = ground (
  arith,
  eq_iff x.name name,
  eq_iff x.name other,
  eq_iff name other,
  listening-if name other l fresh xs,
)

-- What the events of a name call before and after a listener subscribes with a name.
abbrev pub IsAdded : (name other : String) (l : ℕ) (before now : List ℕ) → Type 0
IsAdded name other l before now =
    ((name ≡ other) × (¬ IsIn l before) × (now ≡ before ++ (l ∷ [])))
    ⊎ (((name ≢ other) ⊎ IsIn l before) × (now ≡ before))

same_name :
    (name other : String) (l : ℕ) (ls : List ListenerSet)
    → name ≡ other
    → IsAdded name other l (listening other ls) (add_member l (listening name ls))
same_name name other l ls e =
    subst (λ n. IsAdded name other l (listening n ls) (add_member l (listening name ls))) e
      (elim (add_member_lem l (listening name ls)) [
        | inl found ↦ inr (inr found.0, found.1)
        | inr missing ↦ inl (e, missing.0, missing.1)
      ])

-- Subscribing with a name changes what the events of that name call, and of no other: a listener that
-- is new there is called after all the others, and one that is there already is not called twice.
pub listening-subscribe :
    (name other : String) (l fresh : ℕ) (ls : List ListenerSet)
    → IsAdded name other l (listening other ls) (listening other (subscribe name l fresh ls))
listening-subscribe name other l fresh ls =
    subst (IsAdded name other l (listening other ls)) (sym (listening-if name other l fresh ls)) (
      if-intro (IsAdded name other l (listening other ls)) (str_eq name other) _ _
        (λ h. same_name name other l ls ((eq_iff name other).0 h))
        (λ h. inr (inl (λ e. false≢true (sym h ∙ (eq_iff name other).1 e)), refl)))

module _ {E : Type 0} (throws : ℕ → Event → Option E) where
  notify-All :
      (ls : List ℕ) (e : Event)
      → All (λ l. throws l e ≡ none) ls
      → notify throws ls e ≡ (map (λ l. calls l e) ls, none)
  unfolding notify
  notify-All [] e h = refl
  notify-All (l ∷ ls) e h = ground (arith, notify-All ls e h.1)

  module _ (overflow : ℕ → E) where
    -- On an open stream, an event for which no listener of its name throws calls those listeners,
    -- each once and in the order of their Set, and does nothing else outside the stream.
    pub receive-calls :
        (e : Event) (s : Stream E)
        → s.closed ≡ false
        → All (λ l. throws l e ≡ none) (listeners_of e s.listeners)
        → (receive overflow throws (some e) s).1 ≡ map (λ l. calls l e) (listeners_of e s.listeners)
    unfolding receive after_notify
    receive-calls e s open_ quiet = ground (arith, notify-All (listeners_of e s.listeners) e quiet)
