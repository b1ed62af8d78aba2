-- ===== src/Proto/Event/Refused.antt =====
-- Event.encode of sdk/node/src/gen/meta/v1/events.ts: when it throws.
use text.Mathlib.Text.{◌==◌ as str_eq}
use meta_go.Prelude.{
  ℕ, ◌<◌, ◌^◌, ◌↔◌, String, List, [], Option, none, some, arith, ℤ, pos, negsuc, is_zero, ltb,
  if-intro,
}
use meta_go.Wire.{Wire}
use meta_go.Wire.Encode.{both, put_string, put_uint64, put_message, is_uint64, tagged}
use meta_go.Proto.Google.{encode_date}
use meta_go.Proto.Event.{Event, encode_event, put_event_payload}

-- The bytes are there: nothing was thrown.
abbrev pub IsSome : {A : Type 0} → Option A → Type 0
IsSome none = ⊥
IsSome (some a) = Unit

-- The number fits 64 bits without a sign.
abbrev pub IsUint64 : ℤ → Type 0
IsUint64 (pos n) = n < 2 ^ 64
IsUint64 (negsuc n) = ⊥

-- What BinaryWriter takes without throwing: numbers of the width of the method, and any text.
pub record IsWriting {Byte : Type 0} (w : Wire Byte) : Type 0 where
  pub uint32_writes : (n : ℕ) → n < 2 ^ 32 → IsSome (w.uint32 n)
  pub uint64_writes : (n : ℕ) → n < 2 ^ 64 → IsSome (w.uint64 (pos n))
  pub string_writes : (s : String) → IsSome (w.string s)

module _ {Byte : Type 0} where
  abbrev IsWrittenIf : ℕ → Option (List Byte) → Type 0
  IsWrittenIf n o = IsSome o ↔ (n < 2 ^ 64)

  both-IsSome : (p q : Option (List Byte)) → IsSome (both p q) ↔ (IsSome p × IsSome q)
  both-IsSome none q = ((λ h. absurd h), λ h. h.0)
  both-IsSome (some a) none = ((λ h. absurd h), λ h. h.1)
  both-IsSome (some a) (some b) = ((λ h. (tt, tt)), λ h. tt)

module _ {Byte : Type 0} (w : Wire Byte) (writes : IsWriting w) where
  put_string-IsSome : (tag : ℕ) (s : String) → tag < 2 ^ 32 → IsSome (put_string w tag s)
  unfolding put_string
  put_string-IsSome tag s small =
      if-intro IsSome (str_eq s "") _ _ (λ h. tt)
        (λ h. (both-IsSome _ _).1 (writes.uint32_writes tag small, writes.string_writes s))

  put_uint64-IsSome : (tag : ℕ) (z : ℤ) → tag < 2 ^ 32 → IsSome (put_uint64 w tag z) ↔ IsUint64 z
  unfolding put_uint64 is_uint64
  put_uint64-IsSome tag (pos n) small =
      if-intro (IsWrittenIf n) (is_zero (pos n)) (some []) _ (λ h. ((λ i. ground arith), λ i. tt))
        (λ h.
          if-intro (IsWrittenIf n) (ltb n (2 ^ 64)) (tagged w tag (w.uint64 (pos n))) none
            (λ fits. (
              (λ i. ground arith),
              λ i. (both-IsSome _ _).1 (writes.uint32_writes tag small, writes.uint64_writes n i),
            ))
            (λ huge. ((λ i. absurd i), λ i. ground arith)))
  put_uint64-IsSome tag (negsuc n) small = ((λ h. h), λ h. absurd h)

  -- With a writer that takes tags, texts and 64-bit numbers, the encoding of an event throws exactly
  -- when its sequence number is negative or 2 ^ 64 at least, or when the encoding of its date or of
  -- its payload throws.
  pub encode_event-IsSome :
      (m : Event)
      → IsSome (encode_event w m) ↔ (
          IsUint64 m.sequence
          × IsSome (put_message w 26 (encode_date w) m.emitted_at)
          × IsSome (put_event_payload w m.payload))
  unfolding encode_event
  encode_event-IsSome m = (
    λ h.
        let rest = ((both-IsSome _ _).0 h).1 in
        let later = ((both-IsSome _ _).0 rest).1 in
        let last = ((both-IsSome _ _).0 later).1 in
        (
          (put_uint64-IsSome 16 m.sequence (omega arith)).0 ((both-IsSome _ _).0 rest).0,
          ((both-IsSome _ _).0 later).0,
          ((both-IsSome _ _).0 last).0,
        ),
    λ h. (both-IsSome _ _).1 (
      put_string-IsSome 10 m.session_id (omega arith),
      (both-IsSome _ _).1 (
        (put_uint64-IsSome 16 m.sequence (omega arith)).1 h.0,
        (both-IsSome _ _).1 (h.1, (both-IsSome _ _).1 (h.2, tt)),
      ),
    ),
  )
