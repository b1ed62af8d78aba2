-- ===== src/Wire/Embedded.antt =====
-- Embedded messages, optional and repeated, objects, and dates.
use text.Mathlib.TextEquality.{eq_iff}
use meta_go.Prelude.{
  ℕ, suc, ◌≡◌, ◌≢◌, refl, List, [], ◌∷◌, ◌++◌, Option, none, some, String, true, All, arith,
  append_assoc, append-nil,
}
use meta_go.Wire.{Wire, Case, select, decode_embedded}
use meta_go.Wire.Laws.{WireLaws}
use meta_go.Wire.Encode.{put_message, put_messages, set_message}
use meta_go.Wire.Keys.{precedes}
use meta_go.Wire.Objects.{Entries, place, assign, IsBefore, IsObject}
use meta_go.Wire.Reads.{Reads}
use meta_go.Wire.Fields.{Writes, Writes-nothing, Writes-both, Writes-embedded}

-- The key is another than those of the entries, and stands behind them.
abbrev IsBehind : String → Entries → Type 0
IsBehind k [] = Unit
IsBehind k ((j, u) ∷ es) = (j ≢ k) × (precedes j k ≡ true) × IsBehind k es

place-append : (k v : String) (es : Entries) → IsBehind k es → place k v es ≡ es ++ ((k, v) ∷ [])
unfolding place
place-append k v [] h = refl
place-append k v ((j, u) ∷ es) h = ground (arith, eq_iff j k, place-append k v es h.2)

assign-append :
    (k v : String) (es : Entries)
    → IsBehind k es
    → k ≢ "__proto__"
    → assign k v es ≡ es ++ ((k, v) ∷ [])
unfolding assign
assign-append k v es h p = ground (arith, eq_iff k "__proto__", place-append k v es h)

before_at :
    (j k v : String) (xs ys : Entries)
    → IsBefore j (xs ++ ((k, v) ∷ ys))
    → (j ≢ k) × (precedes j k ≡ true)
before_at j k v [] ys h = (h.0, h.1)
before_at j k v ((i, u) ∷ xs) ys h = before_at j k v xs ys h.2

IsBehind-of_object :
    (k v : String) (xs ys : Entries)
    → IsObject (xs ++ ((k, v) ∷ ys))
    → IsBehind k xs × (k ≢ "__proto__")
IsBehind-of_object k v [] ys d = (tt, d.0)
IsBehind-of_object k v ((j, u) ∷ xs) ys d =
    let at_head = before_at j k v xs ys d.1 in
    let later = IsBehind-of_object k v xs ys d.2 in ((at_head.0, at_head.1, later.0), later.1)

module _ {Byte M : Type 0} (w : Wire Byte) (laws : WireLaws w) (cases : List (Case Byte M)) where
  -- The same for embedded messages, whose own fields are read back at height `k`.
  module _ {A : Type 0} (k tag : ℕ) (inner : List (Case Byte A)) (base : A)
      (encode : A → Option (List Byte)) where
    abbrev pub InnerReads : A → Type 0
    InnerReads a = (b : List Byte) → encode a ≡ some b → Reads w laws inner k b base a

    pub Writes-message :
        (set : M → A → M) (f : Option A → M) (o : Option A)
        → ((a : A) → o ≡ some a → InnerReads a)
        → select tag cases ≡ some (set_message (decode_embedded w inner base) set)
        → ((a : A) → set (f none) a ≡ f (some a))
        → Writes w laws cases (suc k) (put_message w tag encode o) (f none) (f o)
    unfolding put_message
    Writes-message set f none r sel e = Writes-nothing w laws cases (suc k) (f none)
    Writes-message set f (some a) r sel e =
        rw (← e a)
          (Writes-embedded w laws cases inner base a k tag (encode a) set (f none) (r a refl) sel)

    Writes-messages_from :
        (set : M → A → M) (f : List A → M) (xs ys : List A)
        → All InnerReads ys
        → select tag cases ≡ some (set_message (decode_embedded w inner base) set)
        → ((zs : List A) (a : A) → set (f zs) a ≡ f (zs ++ (a ∷ [])))
        → Writes w laws cases (suc k) (put_messages w tag encode ys) (f xs) (f (xs ++ ys))
    unfolding put_messages
    Writes-messages_from set f xs [] r sel e =
        rw (append-nil xs) (Writes-nothing w laws cases (suc k) (f xs))
    Writes-messages_from set f xs (y ∷ ys) r sel e =
        Writes-both w laws cases (suc k) _ _ (f xs) (f (xs ++ (y ∷ []))) (f (xs ++ (y ∷ ys)))
          (rw (← e xs y)
            (Writes-embedded w laws cases inner base y k tag (encode y) set (f xs) r.0 sel))
          (rw (append_assoc xs (y ∷ []) ys) at
            (Writes-messages_from set f (xs ++ (y ∷ [])) ys r.1 sel e))

    pub Writes-messages :
        (set : M → A → M) (f : List A → M) (xs : List A)
        → All InnerReads xs
        → select tag cases ≡ some (set_message (decode_embedded w inner base) set)
        → ((zs : List A) (a : A) → set (f zs) a ≡ f (zs ++ (a ∷ [])))
        → Writes w laws cases (suc k) (put_messages w tag encode xs) (f []) (f xs)
    Writes-messages set f xs r sel e = Writes-messages_from set f [] xs r sel e

    Writes-entries_from :
        (set : M → A → M) (entry : String × String → A) (f : Entries → M) (xs ys : Entries)
        → IsObject (xs ++ ys)
        → ((e : String × String) → InnerReads (entry e))
        → select tag cases ≡ some (set_message (decode_embedded w inner base) set)
        → ((zs : Entries) (e : String × String) → set (f zs) (entry e) ≡ f (assign e.0 e.1 zs))
        → Writes w laws cases
            (suc k)
            (put_messages w tag (λ e. encode (entry e)) ys)
            (f xs)
            (f (xs ++ ys))
    unfolding put_messages
    Writes-entries_from set entry f xs [] d r sel e =
        rw (append-nil xs) (Writes-nothing w laws cases (suc k) (f xs))
    Writes-entries_from set entry f xs (y ∷ ys) d r sel e =
        Writes-both w laws cases (suc k) _ _ (f xs) (f (xs ++ (y ∷ []))) (f (xs ++ (y ∷ ys)))
          (rw
            (
              ← assign-append y.0 y.1 xs (IsBehind-of_object y.0 y.1 xs ys d).0
                  (IsBehind-of_object y.0 y.1 xs ys d).1,
              ← e xs y,
            )
            (Writes-embedded w laws cases inner base (entry y) k tag (encode (entry y)) set (f xs)
              (r y) sel))
          (rw (append_assoc xs (y ∷ []) ys) at (
            Writes-entries_from set entry f (xs ++ (y ∷ [])) ys (rw (append_assoc xs (y ∷ []) ys) d)
              r sel e))

    -- An object: each entry is written as a message of its own, and assigned when it is read.
    pub Writes-entries :
        (set : M → A → M) (entry : String × String → A) (f : Entries → M) (es : Entries)
        → IsObject es
        → ((e : String × String) → InnerReads (entry e))
        → select tag cases ≡ some (set_message (decode_embedded w inner base) set)
        → ((zs : Entries) (e : String × String) → set (f zs) (entry e) ≡ f (assign e.0 e.1 zs))
        → Writes w laws cases (suc k) (put_messages w tag (λ e. encode (entry e)) es) (f []) (f es)
    Writes-entries set entry f es d r sel e = Writes-entries_from set entry f [] es d r sel e
