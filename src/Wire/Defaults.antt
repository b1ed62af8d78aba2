-- ===== src/Wire/Defaults.antt =====
-- A scalar field of a message that has the field's default so far: the setter of its case makes the rest.
use meta_go.Prelude.{ℕ, ◌≡◌, ap, subst, List, [], Option, some, false, true, Bool, String, ℤ, pos}
use meta_go.Wire.{Wire, Case, select}
use meta_go.Wire.Laws.{WireLaws}
use meta_go.Wire.Encode.{
  put_string, put_bool, put_uint32, put_int32, put_int64, put_uint64, put_bytes, set_by,
}
use meta_go.Wire.Fields.{
  Writes, Writes-string, Writes-bool, Writes-uint32, Writes-int32, Writes-int64, Writes-uint64,
  Writes-bytes,
}

module _ {Byte M : Type 0} (w : Wire Byte) (laws : WireLaws w) (cases : List (Case Byte M)) where
  from_default :
      {A : Type 0} (height : ℕ) (set : M → A → M) (p : M) (d a : A) (o : Option (List Byte))
      → set p d ≡ p
      → (set (set p d) a ≡ set p a → Writes w laws cases height o (set p d) (set p a))
      → Writes w laws cases height o p (set p a)
  from_default height set p d a o e f =
      subst (λ q. Writes w laws cases height o q (set p a)) e (f (ap (λ q. set q a) e))

  module _ (height tag : ℕ) where
    pub Sets-string :
        (set : M → String → M) (p : M) (a : String)
        → select tag cases ≡ some (set_by w.read_string set)
        → set p "" ≡ p
        → Writes w laws cases height (put_string w tag a) p (set p a)
    Sets-string set p a sel e =
        from_default height set p "" a _ e (Writes-string w laws cases height tag set (set p) a sel)

    pub Sets-bool :
        (set : M → Bool → M) (p : M) (a : Bool)
        → select tag cases ≡ some (set_by w.read_bool set)
        → set p false ≡ p
        → Writes w laws cases height (put_bool w tag a) p (set p a)
    Sets-bool set p a sel e =
        from_default height set p false a _ e
          (λ k. Writes-bool w laws cases height tag set (set p) a sel (ap (λ q. set q true) e))

    pub Sets-uint32 :
        (set : M → ℕ → M) (p : M) (a : ℕ)
        → select tag cases ≡ some (set_by w.read_uint32 set)
        → set p 0 ≡ p
        → Writes w laws cases height (put_uint32 w tag a) p (set p a)
    Sets-uint32 set p a sel e =
        from_default height set p 0 a _ e (Writes-uint32 w laws cases height tag set (set p) a sel)

    pub Sets-int32 :
        (set : M → ℤ → M) (p : M) (a : ℤ)
        → select tag cases ≡ some (set_by w.read_int32 set)
        → set p (pos 0) ≡ p
        → Writes w laws cases height (put_int32 w tag a) p (set p a)
    Sets-int32 set p a sel e =
        from_default height set p (pos 0) a _ e
          (Writes-int32 w laws cases height tag set (set p) a sel)

    pub Sets-int64 :
        (set : M → ℤ → M) (p : M) (a : ℤ)
        → select tag cases ≡ some (set_by w.read_int64 set)
        → set p (pos 0) ≡ p
        → Writes w laws cases height (put_int64 w tag a) p (set p a)
    Sets-int64 set p a sel e =
        from_default height set p (pos 0) a _ e
          (Writes-int64 w laws cases height tag set (set p) a sel)

    pub Sets-uint64 :
        (set : M → ℤ → M) (p : M) (a : ℤ)
        → select tag cases ≡ some (set_by w.read_uint64 set)
        → set p (pos 0) ≡ p
        → Writes w laws cases height (put_uint64 w tag a) p (set p a)
    Sets-uint64 set p a sel e =
        from_default height set p (pos 0) a _ e
          (Writes-uint64 w laws cases height tag set (set p) a sel)

    pub Sets-bytes :
        (set : M → List ℕ → M) (p : M) (a : List ℕ)
        → select tag cases ≡ some (set_by w.read_bytes set)
        → set p [] ≡ p
        → Writes w laws cases height (put_bytes w tag a) p (set p a)
    Sets-bytes set p a sel e =
        from_default height set p [] a _ e (Writes-bytes w laws cases height tag set (set p) a sel)
