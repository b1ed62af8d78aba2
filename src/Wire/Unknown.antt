-- ===== src/Wire/Unknown.antt =====
-- Fields that a switch has no case for: the loop skips them, so newer messages can be read.
use meta_go.Prelude.{
  ◌<◌, ℕ, zero, suc, ◌+◌, ◌%◌, ◌≡◌, ◌≢◌, ap, List, ◌++◌, Option, none, some, false, ◌==◌, ◌||◌,
  arith, append_assoc, length, length-append,
}
use meta_go.Wire.{Wire, got, Case, skipped, select, decode_loop}
use meta_go.Wire.Laws.{WireLaws}
use meta_go.Wire.Reads.{reader, taken_lem, Reads, uint32_pos, lt-ltb}

module _ {Byte : Type 0} (w : Wire Byte) where
  -- `u` is a field of some tag, which `skip` passes over whatever stands behind it.
  pub record IsField (tag : ℕ) (u : List Byte) : Type 0 where
    pub written_tag : List Byte
    pub payload : List Byte
    pub shape : u ≡ written_tag ++ payload
    pub tagged_by : w.uint32 tag ≡ some written_tag
    pub nonzero : tag ≢ 0
    pub no_end_group : tag % 8 ≢ 4
    pub passed : (rest : List Byte) → w.skip (tag % 8) (payload ++ rest) ≡ some rest

  skipped_lem :
      {M : Type 0} (m : M) (b rest : List Byte) (o : Option (List Byte)) (at depth : ℕ)
      → o ≡ some rest
      → skipped m (reader at (b ++ rest) depth) o ≡ got m (reader (at + length b) rest depth)
  skipped_lem m b rest none at depth h = cc
  skipped_lem m b rest (some r') at depth h = ground (arith, length-append b rest)

  stops : (tag : ℕ) → tag ≢ 0 → tag % 8 ≢ 4 → ((tag % 8 == 4) || (tag == 0)) ≡ false
  stops tag z e = ground arith

module _ {Byte M : Type 0} (w : Wire Byte) (laws : WireLaws w) (cases : List (Case Byte M)) where
  -- A field takes at least the byte of its tag.
  field-nonempty : (tag : ℕ) (u : List Byte) → IsField w tag u → 0 < length u
  field-nonempty tag u f = omega (
    arith,
    uint32_pos w laws cases tag f.written_tag f.tagged_by,
    length-append f.written_tag f.payload,
    ap length f.shape,
  )

  pub Reads-unknown :
      (height tag : ℕ) (u : List Byte) (m : M)
      → IsField w tag u
      → select tag cases ≡ none
      → Reads w laws cases height u m m
  unfolding decode_loop
  Reads-unknown height tag u m f es zero end at depth rest a k d =
      absurd (omega (arith, field-nonempty tag u f))
  Reads-unknown height tag u m f es (suc fuel) end at depth rest a k d = (
    fuel,
    omega (arith, field-nonempty tag u f),
    rw
        (
          f.shape,
          append_assoc f.written_tag f.payload rest,
          lt-ltb w laws cases at end (omega (arith, field-nonempty tag u f)),
          taken_lem tag f.written_tag (f.payload ++ rest) _ at depth
              (laws.uint32_back tag f.written_tag (f.payload ++ rest) f.tagged_by),
          es,
          stops w tag f.nonzero f.no_end_group,
          skipped_lem w m f.payload rest _ (at + length f.written_tag) depth (f.passed rest),
        )
        (ap (λ (n : ℕ). decode_loop w cases fuel end m (reader n rest depth))
          (omega (arith, length-append f.written_tag f.payload))),
  )
