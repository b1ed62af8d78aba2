-- ===== src/Wire.antt =====
-- The shape that every generated file of sdk/node/src/gen/ shares: `encode` writes the fields that
-- differ from their default, `decode` loops over tags with one `case` for each field. BinaryWriter
-- and BinaryReader of @bufbuild/protobuf/wire are the parameter `Wire`; `none` is an exception.
pub mod Laws
pub mod Encode
pub mod Keys
pub mod Objects
pub mod Reads
pub mod Fields
pub mod Defaults
pub mod Embedded
pub mod Bounded
pub mod Unknown
use meta_go.Prelude.{
  ℕ, zero, suc, ◌+◌, ◌-◌, ◌/◌, ◌%◌, ◌^◌, String, Bool, true, false, List, [], ◌∷◌, ◌++◌, ◌||◌,
  Option, none, some, ltb, leb, ◌==◌, length, if◌then◌else◌, ℤ, pos, negsuc,
}

-- What a writer method appends, and what a reader method takes off the bytes that are left.
-- `delimited` is `fork()` … `join()`: the bytes behind their length.
pub record Wire (Byte : Type 0) : Type 0 where
  pub uint32 : ℕ → Option (List Byte)
  pub int32 : ℤ → Option (List Byte)
  pub int64 : ℤ → Option (List Byte)
  pub uint64 : ℤ → Option (List Byte)
  pub bool : Bool → Option (List Byte)
  pub string : String → Option (List Byte)
  pub bytes : List ℕ → Option (List Byte)
  pub delimited : List Byte → Option (List Byte)
  pub read_uint32 : List Byte → Option (ℕ × List Byte)
  pub read_int32 : List Byte → Option (ℤ × List Byte)
  pub read_int64 : List Byte → Option (ℤ × List Byte)
  pub read_uint64 : List Byte → Option (ℤ × List Byte)
  pub read_bool : List Byte → Option (Bool × List Byte)
  pub read_string : List Byte → Option (String × List Byte)
  pub read_bytes : List Byte → Option (List ℕ × List Byte)
  pub skip : ℕ → List Byte → Option (List Byte)

-- The reader object: its position, the bytes from there on, and `__tsProtoDecodeDepth`.
pub record Reader (Byte : Type 0) : Type 0 where
  pub at : ℕ
  pub rest : List Byte
  pub depth : ℕ

-- A result with the reader behind it, an exception, or a loop that ran out of fuel.
pub data Read (Byte A : Type 0) : Type 0 where
  got : A → Reader Byte → Read Byte A
  thrown : Read Byte A
  stuck : Read Byte A

infixl 5 ◌>>=◌
abbrev pub ◌>>=◌ : {Byte A B : Type 0} → Read Byte A → (A → Reader Byte → Read Byte B) → Read Byte B
got a r >>= f = f a r
thrown >>= f = thrown
stuck >>= f = stuck

-- One `case` of the switch: the tag that it accepts, and what it does with the message.
abbrev pub Case : Type 0 → Type 0 → Type 0
Case Byte M = ℕ × (M → Reader Byte → Read Byte M)

module _ {Byte : Type 0} where
  -- The reader after a method that leaves `rest'`.
  abbrev pub advance : Reader Byte → List Byte → Reader Byte
  advance r rest' = record r { at = r.at + (length r.rest - length rest'); rest = rest' }

  abbrev pub taken : {A : Type 0} → Reader Byte → Option (A × List Byte) → Read Byte A
  taken r none = thrown
  taken r (some (a, rest')) = got a (advance r rest')

  abbrev pub skipped : {M : Type 0} → M → Reader Byte → Option (List Byte) → Read Byte M
  skipped m r none = thrown
  skipped m r (some rest') = got m (advance r rest')

  -- `switch (tag >>> 3)`, with `if (tag !== T) break` in each case: the field's handler, if any.
  abbrev pub select : {M : Type 0} → ℕ → List (Case Byte M) → Option (M → Reader Byte → Read Byte M)
  select tag [] = none
  select tag ((t, h) ∷ cs) = if tag == t then some h else select tag cs

module _ {Byte M : Type 0} (w : Wire Byte) (cases : List (Case Byte M)) where
  -- A round of the loop: `continue` after a case, `break` at an end-group tag or tag 0, else `skip`.
  unfoldable pub round :
      ℕ
      → M
      → Reader Byte
      → (M → Reader Byte → Read Byte M)
      → Option (M → Reader Byte → Read Byte M)
      → Read Byte M
  round tag m r again (some h) = h m r >>= again
  round tag m r again none =
      if (tag % 8 == 4) || (tag == 0)
      then got m r
      else skipped m r (w.skip (tag % 8) r.rest) >>= again

  -- `while (reader.pos < end)`.
  unfoldable pub decode_loop : ℕ → ℕ → M → Reader Byte → Read Byte M
  unfolding round
  decode_loop zero end m r = stuck
  decode_loop (suc fuel) end m r =
      let turn =
        taken r (w.read_uint32 r.rest)
        >>= (λ tag r'. round tag m r' (decode_loop fuel end) (select tag cases)) in
      if ltb r.at end then turn else got m r

  abbrev pub restored : ℕ → Read Byte M → Read Byte M
  restored depth x = x >>= (λ m r. got m (record r { depth = depth }))

  -- `decode(reader, length)`. Each round takes at least one byte, so the fuel is enough.
  unfoldable pub decode_upto : M → ℕ → Reader Byte → Read Byte M
  decode_upto base end r =
      if leb 100 r.depth
      then thrown
      else restored r.depth
          (decode_loop (suc (length r.rest)) end base (record r { depth = r.depth + 1 }))

  -- An embedded message: `M.decode(reader, reader.uint32())`.
  unfoldable pub decode_embedded : M → Reader Byte → Read Byte M
  decode_embedded base r =
      taken r (w.read_uint32 r.rest) >>= (λ len r'. decode_upto base (r'.at + len) r')

  -- `M.decode(bytes)`: a fresh reader over the whole input.
  unfoldable pub decode_all : M → List Byte → Read Byte M
  decode_all base input =
      decode_upto base (length input) (record { at = 0; rest = input; depth = 0 })
