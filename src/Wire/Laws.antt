-- ===== src/Wire/Laws.antt =====
-- What the generated code relies on in BinaryWriter and BinaryReader: that a reader method takes back
-- what the writer method of its name has written, and that it goes forward.
use meta_go.Prelude.{ℕ, ◌≤◌, ◌<◌, ◌≡◌, List, ◌++◌, Option, some, length}
use meta_go.Wire.{Wire}

-- Whatever `write` writes, `read` takes off the front of the bytes.
abbrev pub ReadsBack :
    {Byte A : Type 0} → (A → Option (List Byte)) → (List Byte → Option (A × List Byte)) → Type 0
ReadsBack {Byte} {A} write read =
    (a : A) (b rest : List Byte) → write a ≡ some b → read (b ++ rest) ≡ some (a, rest)

-- `read` never gives back more bytes than it got.
abbrev pub GoesForward : {Byte A : Type 0} → (List Byte → Option (A × List Byte)) → Type 0
GoesForward {Byte} {A} read =
    (b rest : List Byte) (a : A) → read b ≡ some (a, rest) → length rest ≤ length b

pub record WireLaws {Byte : Type 0} (w : Wire Byte) : Type 0 where
  pub uint32_back : ReadsBack w.uint32 w.read_uint32
  pub int32_back : ReadsBack w.int32 w.read_int32
  pub int64_back : ReadsBack w.int64 w.read_int64
  pub uint64_back : ReadsBack w.uint64 w.read_uint64
  pub bool_back : ReadsBack w.bool w.read_bool
  pub string_back : ReadsBack w.string w.read_string
  pub bytes_back : ReadsBack w.bytes w.read_bytes
  -- A forked message is written behind its length.
  pub delimited_back :
      (m b rest : List Byte)
      → w.delimited m ≡ some b
      → (n : List Byte) × (b ≡ n ++ m)
        × (w.read_uint32 (n ++ (m ++ rest)) ≡ some (length m, m ++ rest))
  -- A number takes a byte at least.
  pub uint32_takes :
      (b rest : List Byte) (n : ℕ) → w.read_uint32 b ≡ some (n, rest) → length rest < length b
  pub int32_forward : GoesForward w.read_int32
  pub int64_forward : GoesForward w.read_int64
  pub uint64_forward : GoesForward w.read_uint64
  pub bool_forward : GoesForward w.read_bool
  pub string_forward : GoesForward w.read_string
  pub bytes_forward : GoesForward w.read_bytes
  pub skip_forward : (t : ℕ) (b rest : List Byte) → w.skip t b ≡ some rest → length rest ≤ length b
