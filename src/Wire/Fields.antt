-- ===== src/Wire/Fields.antt =====
-- Each form of field: what its statement writes, its case reads back.
use text.Mathlib.Text.{◌==◌ as str_eq}
use text.Mathlib.TextEquality.{eq_iff}
use meta_go.Prelude.{
  ℕ, suc, ◌≡◌, refl, List, [], ◌∷◌, ◌++◌, Option, none, some, true, false, Bool, String, ℤ, pos,
  negsuc, is_zero, ◌==◌, ==_iff, arith, append_assoc, append-nil, Bool-cases, inl, inr,
}
use meta_go.Wire.{Wire, Case, select, decode_embedded}
use meta_go.Wire.Laws.{WireLaws, ReadsBack}
use meta_go.Wire.Encode.{
  both, then_write, tagged, put_string, put_bool, put_uint32, put_int32, put_int64, put_uint64,
  put_bytes, is_int64, is_uint64, put_embedded, put_strings, set_by, set_message,
}
use meta_go.Wire.Reads.{
  taken_lem, Reads, Reads-nil, Reads-append, Reads-case, Reads-decode_embedded,
}

module _ {Byte : Type 0} where
  pub both-eq-some :
      (p q : Option (List Byte)) {b : List Byte}
      → both p q ≡ some b
      → (a c : List Byte) × (p ≡ some a) × (q ≡ some c) × (b ≡ a ++ c)
  both-eq-some none q h = cc
  both-eq-some (some a) none h = cc
  both-eq-some (some a) (some c) h = (a, c, refl, refl, cc)

  then_write-eq-some :
      (p : Option (List Byte)) (f : List Byte → Option (List Byte)) {b : List Byte}
      → then_write p f ≡ some b
      → (a : List Byte) × (p ≡ some a) × (f a ≡ some b)
  then_write-eq-some none f h = cc
  then_write-eq-some (some a) f h = (a, refl, h)

is_zero-eq : (z : ℤ) → is_zero z ≡ true → z ≡ pos 0
is_zero-eq (pos n) h = ground arith
is_zero-eq (negsuc n) h = cc

module _ {Byte M : Type 0} (w : Wire Byte) (laws : WireLaws w) (cases : List (Case Byte M)) where
  -- If the statement writes at all, the loop reads its bytes and makes `m'` of `m`.
  abbrev pub Writes : ℕ → Option (List Byte) → M → M → Type 0
  Writes height o m m' = (b : List Byte) → o ≡ some b → Reads w laws cases height b m m'

  pub Writes-nothing : (height : ℕ) (m : M) → Writes height (some []) m m
  Writes-nothing height m [] e = Reads-nil w laws cases height m
  Writes-nothing height m (x ∷ b) e = cc

  pub Writes-both :
      (height : ℕ) (p q : Option (List Byte)) (m m' m'' : M)
      → Writes height p m m'
      → Writes height q m' m''
      → Writes height (both p q) m m''
  Writes-both height p q m m' m'' f g b e =
      let (a, c, ep, eq, eb) = both-eq-some p q e in
      rw eb (Reads-append w laws cases height a c m m' m'' (f a ep) (g c eq))

  -- A scalar behind its tag.
  pub Writes-tagged :
      {A : Type 0} (write : A → Option (List Byte)) (read : List Byte → Option (A × List Byte))
      (height tag : ℕ) (set : M → A → M) (m : M) (a : A)
      → ReadsBack write read
      → select tag cases ≡ some (set_by read set)
      → Writes height (tagged w tag (write a)) m (set m a)
  Writes-tagged write read height tag set m a back sel b e =
      let (t, payload, et, ep, eb) = both-eq-some (w.uint32 tag) (write a) e in
      rw eb (
        Reads-case w laws cases height tag t payload m (set m a) (set_by read set) et sel
          (λ at depth rest d.
            rw (taken_lem a payload rest _ at depth (back a payload rest ep)) refl))

  -- A message behind its tag and its length, given that its own fields are read back.
  pub Writes-embedded :
      {A : Type 0} (inner : List (Case Byte A)) (base a : A) (k tag : ℕ) (o : Option (List Byte))
      (set : M → A → M) (m : M)
      → ((b : List Byte) → o ≡ some b → Reads w laws inner k b base a)
      → select tag cases ≡ some (set_message (decode_embedded w inner base) set)
      → Writes (suc k) (put_embedded w tag o) m (set m a)
  unfolding put_embedded
  Writes-embedded inner base a k tag o set m f sel b e =
      let (t, payload, et, ep, eb) = both-eq-some (w.uint32 tag) (then_write o w.delimited) e in
      let (part, eo, ed) = then_write-eq-some o w.delimited ep in
      rw eb (
        Reads-case w laws cases (suc k) tag t payload m (set m a)
          (set_message (decode_embedded w inner base) set) et sel
          (λ at depth rest d.
            rw
              (Reads-decode_embedded w laws inner k part payload base a (f part eo) ed at depth rest
                d)
              refl))

  -- A message that cannot be encoded writes nothing.
  pub put_embedded-none :
      (tag : ℕ) (o : Option (List Byte)) (b : List Byte)
      → o ≡ none
      → ¬ (put_embedded w tag o ≡ some b)
  unfolding put_embedded
  put_embedded-none tag none b h e =
      let (t, payload, et, ep, eb) = both-eq-some (w.uint32 tag) none e in cc
  put_embedded-none tag (some x) b h e = cc

  -- In each lemma below `f` is the message as a function of the field that is written; the field has
  -- its default before.
  module _ (height tag : ℕ) where
    pub Writes-string :
        (set : M → String → M) (f : String → M) (s : String)
        → select tag cases ≡ some (set_by w.read_string set)
        → set (f "") s ≡ f s
        → Writes height (put_string w tag s) (f "") (f s)
    unfolding put_string
    Writes-string set f s sel e = elim (Bool-cases (str_eq s "")) [
      | inl h ↦ rw h (rw ((eq_iff s "").0 h) (Writes-nothing height (f "")))
      | inr h ↦
          rw (h, ← e)
            (Writes-tagged w.string w.read_string height tag set (f "") s laws.string_back sel)
    ]

    pub Writes-bool :
        (set : M → Bool → M) (f : Bool → M) (a : Bool)
        → select tag cases ≡ some (set_by w.read_bool set)
        → set (f false) true ≡ f true
        → Writes height (put_bool w tag a) (f false) (f a)
    unfolding put_bool
    Writes-bool set f false sel e = Writes-nothing height (f false)
    Writes-bool set f true sel e =
        rw (← e) (Writes-tagged w.bool w.read_bool height tag set (f false) true laws.bool_back sel)

    pub Writes-uint32 :
        (set : M → ℕ → M) (f : ℕ → M) (n : ℕ)
        → select tag cases ≡ some (set_by w.read_uint32 set)
        → set (f 0) n ≡ f n
        → Writes height (put_uint32 w tag n) (f 0) (f n)
    unfolding put_uint32
    Writes-uint32 set f n sel e = elim (Bool-cases (n == 0)) [
      | inl h ↦ rw h (rw ((==_iff n 0).0 h) (Writes-nothing height (f 0)))
      | inr h ↦
          rw (h, ← e)
            (Writes-tagged w.uint32 w.read_uint32 height tag set (f 0) n laws.uint32_back sel)
    ]

    pub Writes-int32 :
        (set : M → ℤ → M) (f : ℤ → M) (z : ℤ)
        → select tag cases ≡ some (set_by w.read_int32 set)
        → set (f (pos 0)) z ≡ f z
        → Writes height (put_int32 w tag z) (f (pos 0)) (f z)
    unfolding put_int32
    Writes-int32 set f z sel e = elim (Bool-cases (is_zero z)) [
      | inl h ↦ rw h (rw (is_zero-eq z h) (Writes-nothing height (f (pos 0))))
      | inr h ↦
          rw (h, ← e)
            (Writes-tagged w.int32 w.read_int32 height tag set (f (pos 0)) z laws.int32_back sel)
    ]

    pub Writes-int64 :
        (set : M → ℤ → M) (f : ℤ → M) (z : ℤ)
        → select tag cases ≡ some (set_by w.read_int64 set)
        → set (f (pos 0)) z ≡ f z
        → Writes height (put_int64 w tag z) (f (pos 0)) (f z)
    unfolding put_int64
    Writes-int64 set f z sel e = elim (Bool-cases (is_zero z)) [
      | inl h ↦ rw h (rw (is_zero-eq z h) (Writes-nothing height (f (pos 0))))
      | inr h ↦ elim (Bool-cases (is_int64 z)) [
        | inl k ↦
            rw (h, k, ← e)
              (Writes-tagged w.int64 w.read_int64 height tag set (f (pos 0)) z laws.int64_back sel)
        | inr k ↦ rw (h, k) (λ b none_is. cc)
      ]
    ]

    pub Writes-uint64 :
        (set : M → ℤ → M) (f : ℤ → M) (z : ℤ)
        → select tag cases ≡ some (set_by w.read_uint64 set)
        → set (f (pos 0)) z ≡ f z
        → Writes height (put_uint64 w tag z) (f (pos 0)) (f z)
    unfolding put_uint64
    Writes-uint64 set f z sel e = elim (Bool-cases (is_zero z)) [
      | inl h ↦ rw h (rw (is_zero-eq z h) (Writes-nothing height (f (pos 0))))
      | inr h ↦ elim (Bool-cases (is_uint64 z)) [
        | inl k ↦
            rw (h, k, ← e)
              (Writes-tagged w.uint64 w.read_uint64 height tag set (f (pos 0)) z laws.uint64_back
                sel)
        | inr k ↦ rw (h, k) (λ b none_is. cc)
      ]
    ]

    pub Writes-bytes :
        (set : M → List ℕ → M) (f : List ℕ → M) (a : List ℕ)
        → select tag cases ≡ some (set_by w.read_bytes set)
        → set (f []) a ≡ f a
        → Writes height (put_bytes w tag a) (f []) (f a)
    unfolding put_bytes
    Writes-bytes set f [] sel e = Writes-nothing height (f [])
    Writes-bytes set f (x ∷ xs) sel e =
        rw (← e)
          (Writes-tagged w.bytes w.read_bytes height tag set (f []) (x ∷ xs) laws.bytes_back sel)

    Writes-strings_from :
        (set : M → String → M) (f : List String → M) (xs ys : List String)
        → select tag cases ≡ some (set_by w.read_string set)
        → ((zs : List String) (s : String) → set (f zs) s ≡ f (zs ++ (s ∷ [])))
        → Writes height (put_strings w tag ys) (f xs) (f (xs ++ ys))
    unfolding put_strings
    Writes-strings_from set f xs [] sel e = rw (append-nil xs) (Writes-nothing height (f xs))
    Writes-strings_from set f xs (y ∷ ys) sel e =
        Writes-both height _ _ (f xs) (f (xs ++ (y ∷ []))) (f (xs ++ (y ∷ ys)))
          (rw (← e xs y)
            (Writes-tagged w.string w.read_string height tag set (f xs) y laws.string_back sel))
          (rw (append_assoc xs (y ∷ []) ys) at
            (Writes-strings_from set f (xs ++ (y ∷ [])) ys sel e))

    pub Writes-strings :
        (set : M → String → M) (f : List String → M) (xs : List String)
        → select tag cases ≡ some (set_by w.read_string set)
        → ((zs : List String) (s : String) → set (f zs) s ≡ f (zs ++ (s ∷ [])))
        → Writes height (put_strings w tag xs) (f []) (f xs)
    Writes-strings set f xs sel e = Writes-strings_from set f [] xs sel e
