-- ===== src/Stream/Listeners.antt =====
-- EventStream: the Map from event names to Sets of listeners.
use mathlib.Core.Bool.{false≢true}
use text.Mathlib.Text.{◌==◌ as str_eq}
use meta_go.Prelude.{
  ℕ, String, Bool, false, List, [], ◌∷◌, ◌++◌, ◌||◌, none, some, ◌==◌, if◌then◌else◌, true, ◌≡◌,
  ◌⊎◌, inl, inr, refl, sym, ◌∙◌, arith, ==_iff, Bool-cases,
}
use meta_go.Proto.Event.{
  Event, EventPayload, ready, reconnected, disconnected, error, message, reaction, typing,
  read_receipt, delivery_receipt, message_edit, message_unsend, thread_update, e2ee_ready,
  e2ee_receipt, thread_system,
}

-- `event.payload.$case`.
unfoldable pub event_name : EventPayload → String
event_name (ready v) = "ready"
event_name (reconnected v) = "reconnected"
event_name (disconnected v) = "disconnected"
event_name (error v) = "error"
event_name (message v) = "message"
event_name (reaction v) = "reaction"
event_name (typing v) = "typing"
event_name (read_receipt v) = "readReceipt"
event_name (delivery_receipt v) = "deliveryReceipt"
event_name (message_edit v) = "messageEdit"
event_name (message_unsend v) = "messageUnsend"
event_name (thread_update v) = "threadUpdate"
event_name (e2ee_ready v) = "e2eeReady"
event_name (e2ee_receipt v) = "e2eeReceipt"
event_name (thread_system v) = "threadSystem"

-- The Set of listeners of one name; unsubscribing keeps the Set itself, not its name.
pub record ListenerSet : Type 0 where
  pub name : String
  pub set_id : ℕ
  pub members : List ℕ

has_member : ℕ → List ℕ → Bool
has_member l [] = false
has_member l (m ∷ ms) = (m == l) || has_member l ms

-- `Set.add`.
unfoldable pub add_member : ℕ → List ℕ → List ℕ
unfolding has_member
add_member l ms = if has_member l ms then ms else ms ++ (l ∷ [])

-- The listener is in the Set.
abbrev pub IsIn : ℕ → List ℕ → Type 0
IsIn l [] = ⊥
IsIn l (m ∷ ms) = (m ≡ l) ⊎ IsIn l ms

has_member-cases :
    (l : ℕ) (ms : List ℕ)
    → ((has_member l ms ≡ true) × IsIn l ms) ⊎ ((has_member l ms ≡ false) × (¬ IsIn l ms))
unfolding has_member
has_member-cases l [] = inr (refl, λ i. i)
has_member-cases l (m ∷ ms) = elim (has_member-cases l ms) [
  | inl found ↦ inl (ground arith, inr found.1)
  | inr missing ↦ elim (Bool-cases (m == l)) [
    | inl h ↦ inl (ground arith, inl ((==_iff m l).0 h))
    | inr h ↦ inr (
      ground arith,
      λ i. elim i [ inl e ↦ absurd (false≢true (sym h ∙ (==_iff m l).1 e)) | inr j ↦ missing.1 j ],
    )
  ]
]

-- A Set holds a listener once.
pub add_member_lem :
    (l : ℕ) (ms : List ℕ)
    → (IsIn l ms × (add_member l ms ≡ ms)) ⊎ ((¬ IsIn l ms) × (add_member l ms ≡ ms ++ (l ∷ [])))
unfolding add_member
add_member_lem l ms = elim (has_member-cases l ms) [
  | inl found ↦ inl (found.1, rw (found.0) refl)
  | inr missing ↦ inr (missing.1, rw (missing.0) refl)
]

unfoldable pub delete_member : ℕ → List ℕ → List ℕ
delete_member l [] = []
delete_member l (m ∷ ms) = if m == l then delete_member l ms else m ∷ delete_member l ms

unfoldable pub subscribe : String → ℕ → ℕ → List ListenerSet → List ListenerSet
unfolding add_member
subscribe name l fresh [] = record { name = name; set_id = fresh; members = l ∷ [] } ∷ []
subscribe name l fresh (x ∷ xs) =
    if str_eq x.name name
    then record x { members = add_member l x.members } ∷ xs
    else x ∷ subscribe name l fresh xs

unfoldable pub listening : String → List ListenerSet → List ℕ
listening name [] = []
listening name (x ∷ xs) = if str_eq x.name name then x.members else listening name xs

-- `this.listeners.get(event.payload.$case) ?? []`.
unfoldable pub listeners_of : Event → List ListenerSet → List ℕ
unfolding listening event_name
listeners_of e ls = elim e.payload [ none ↦ [] | some p ↦ listening (event_name p) ls ]
