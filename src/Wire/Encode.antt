-- ===== src/Wire/Encode.antt =====
-- The statements that the generated `encode` and `decode` are made of, one definition for each form.
use text.Mathlib.Text.{◌==◌ as str_eq}
use meta_go.Prelude.{
  ℕ, ◌^◌, String, Bool, false, List, [], ◌∷◌, ◌++◌, Option, none, some, map, ltb, ◌==◌, ◌≡◌, subst,
  if◌then◌else◌, ℤ, pos, negsuc, is_zero,
}
use meta_go.Wire.{Wire, Reader, Read, got, taken, ◌>>=◌}

module _ {Byte : Type 0} where
  abbrev pub both : Option (List Byte) → Option (List Byte) → Option (List Byte)
  both none q = none
  both (some a) none = none
  both (some a) (some b) = some (a ++ b)

  -- Statements that write to one writer, one after another.
  abbrev pub written : List (Option (List Byte)) → Option (List Byte)
  written [] = some []
  written (p ∷ ps) = both p (written ps)

  abbrev pub then_write : Option (List Byte) → (List Byte → Option (List Byte)) → Option (List Byte)
  then_write none f = none
  then_write (some b) f = f b

-- `BigInt.asIntN(64, x) === x` and `BigInt.asUintN(64, x) === x`.
unfoldable pub is_int64 : ℤ → Bool
is_int64 (pos n) = ltb n (2 ^ 63)
is_int64 (negsuc n) = ltb n (2 ^ 63)

unfoldable pub is_uint64 : ℤ → Bool
is_uint64 (pos n) = ltb n (2 ^ 64)
is_uint64 (negsuc n) = false

module _ {Byte : Type 0} (w : Wire Byte) where
  -- `writer.uint32(tag).m(x)`.
  abbrev pub tagged : ℕ → Option (List Byte) → Option (List Byte)
  tagged tag payload = both (w.uint32 tag) payload

  -- `if (x !== "") { writer.uint32(tag).string(x); }`, and so for the other scalars.
  unfoldable pub put_string : ℕ → String → Option (List Byte)
  put_string tag s = if str_eq s "" then some [] else tagged tag (w.string s)

  unfoldable pub put_bool : ℕ → Bool → Option (List Byte)
  put_bool tag b = if b then tagged tag (w.bool b) else some []

  unfoldable pub put_uint32 : ℕ → ℕ → Option (List Byte)
  put_uint32 tag n = if n == 0 then some [] else tagged tag (w.uint32 n)

  unfoldable pub put_int32 : ℕ → ℤ → Option (List Byte)
  put_int32 tag z = if is_zero z then some [] else tagged tag (w.int32 z)

  -- `throw new Error("value provided for field … of type int64 too large")` is `none`.
  unfoldable pub put_int64 : ℕ → ℤ → Option (List Byte)
  put_int64 tag z =
      if is_zero z then some [] else if is_int64 z then tagged tag (w.int64 z) else none

  unfoldable pub put_uint64 : ℕ → ℤ → Option (List Byte)
  put_uint64 tag z =
      if is_zero z then some [] else if is_uint64 z then tagged tag (w.uint64 z) else none

  unfoldable pub put_bytes : ℕ → List ℕ → Option (List Byte)
  put_bytes tag [] = some []
  put_bytes tag (b ∷ bs) = tagged tag (w.bytes (b ∷ bs))

  -- `M.encode(x, writer.uint32(tag).fork()).join()`.
  unfoldable pub put_embedded : ℕ → Option (List Byte) → Option (List Byte)
  put_embedded tag inner = tagged tag (then_write inner w.delimited)

  -- `if (x !== undefined) { M.encode(x, …); }`.
  unfoldable pub put_message :
      {A : Type 0} → ℕ → (A → Option (List Byte)) → Option A → Option (List Byte)
  put_message tag encode none = some []
  put_message tag encode (some a) = put_embedded tag (encode a)

  -- `for (const v of xs) { writer.uint32(tag).string(v!); }`.
  unfoldable pub put_strings : ℕ → List String → Option (List Byte)
  put_strings tag xs = written (map (λ s. tagged tag (w.string s)) xs)

  -- `for (const v of xs) { M.encode(v!, …); }`.
  unfoldable pub put_messages :
      {A : Type 0} → ℕ → (A → Option (List Byte)) → List A → Option (List Byte)
  put_messages tag encode xs = written (map (λ a. put_embedded tag (encode a)) xs)

module _ {Byte M A : Type 0} where
  -- `message.x = reader.m();`.
  abbrev pub set_by :
      (List Byte → Option (A × List Byte)) → (M → A → M) → M → Reader Byte → Read Byte M
  set_by read set m r = taken r (read r.rest) >>= (λ a r'. got (set m a) r')

  -- `message.x = M.decode(reader, reader.uint32());`.
  abbrev pub set_message : (Reader Byte → Read Byte A) → (M → A → M) → M → Reader Byte → Read Byte M
  set_message decode set m r = decode r >>= (λ a r'. got (set m a) r')

abbrev pub ForSome : {A : Type 0} → (A → Type 0) → Option A → Type 0
ForSome P none = Unit
ForSome P (some a) = P a

pub some_valid :
    {A : Type 0} (P : A → Type 0) (o : Option A) (a : A) → o ≡ some a → ForSome P o → P a
some_valid P none a e h = cc
some_valid P (some b) a e h = subst P (cc) h
