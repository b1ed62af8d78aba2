-- ===== src/Tests/Cells.antt =====
-- A writer and a reader that meet the laws of the wire: each scalar is one cell, and a forked message
-- stands behind the number of its cells.
use meta_go.Prelude.{
  ℕ, ◌^◌, ◌≡◌, refl, ◌++◌, List, [], ◌∷◌, Option, none, some, Bool, String, ℤ, arith, ltb, length,
  drop, ◌==◌, if◌then◌else◌, ◌≤◌, zero, suc,
}
use meta_go.Wire.{Wire}
use meta_go.Wire.Laws.{WireLaws}

pub data Cell : Type 0 where
  num : ℕ → Cell
  int : ℤ → Cell
  flag : Bool → Cell
  text : String → Cell
  blob : List ℕ → Cell

abbrev take_num : List Cell → Option (ℕ × List Cell)
take_num (num n ∷ rest) = some (n, rest)
take_num _ = none

abbrev take_int : List Cell → Option (ℤ × List Cell)
take_int (int z ∷ rest) = some (z, rest)
take_int _ = none

abbrev take_flag : List Cell → Option (Bool × List Cell)
take_flag (flag b ∷ rest) = some (b, rest)
take_flag _ = none

abbrev take_text : List Cell → Option (String × List Cell)
take_text (text s ∷ rest) = some (s, rest)
take_text _ = none

abbrev take_blob : List Cell → Option (List ℕ × List Cell)
take_blob (blob bs ∷ rest) = some (bs, rest)
take_blob _ = none

abbrev put_num : ℕ → Option (List Cell)
put_num n = if ltb n (2 ^ 32) then some (num n ∷ []) else none

abbrev skip_cell : ℕ → List Cell → Option (List Cell)
skip_cell t [] = none
skip_cell t (num n ∷ rest) = if t == 2 then some (drop n rest) else some rest
skip_cell t (_ ∷ rest) = some rest

abbrev pub cells : Wire Cell
cells = record {
  uint32 = put_num;
  int32 = λ z. some (int z ∷ []);
  int64 = λ z. some (int z ∷ []);
  uint64 = λ z. some (int z ∷ []);
  bool = λ b. some (flag b ∷ []);
  string = λ s. some (text s ∷ []);
  bytes = λ bs. some (blob bs ∷ []);
  delimited = λ m. some (num (length m) ∷ m);
  read_uint32 = take_num;
  read_int32 = take_int;
  read_int64 = take_int;
  read_uint64 = take_int;
  read_bool = take_flag;
  read_string = take_text;
  read_bytes = take_blob;
  skip = skip_cell;
}

put_num-back :
    (n : ℕ) (b rest : List Cell) → put_num n ≡ some b → take_num (b ++ rest) ≡ some (n, rest)
put_num-back n [] rest e = ground arith
put_num-back n (c ∷ []) rest e = ground arith
put_num-back n (c ∷ d ∷ b) rest e = ground arith

int-back :
    (z : ℤ) (b rest : List Cell)
    → some (int z ∷ []) ≡ some b
    → take_int (b ++ rest) ≡ some (z, rest)
int-back z b rest e = ground arith

int-forward : (b rest : List Cell) (z : ℤ) → take_int b ≡ some (z, rest) → length rest ≤ length b
int-forward b rest z e = ground arith

length-drop-le : (n : ℕ) (xs : List Cell) → length (drop n xs) ≤ length xs
length-drop-le zero xs = omega arith
length-drop-le (suc n) [] = omega arith
length-drop-le (suc n) (x ∷ xs) = omega (arith, length-drop-le n xs)

skip-forward : (t : ℕ) (b rest : List Cell) → skip_cell t b ≡ some rest → length rest ≤ length b
skip-forward t [] rest e = cc
skip-forward t (num n ∷ b) rest e = ground (arith, length-drop-le n b)
skip-forward t (int z ∷ b) rest e = ground arith
skip-forward t (flag z ∷ b) rest e = ground arith
skip-forward t (text z ∷ b) rest e = ground arith
skip-forward t (blob z ∷ b) rest e = ground arith

pub cells-WireLaws : WireLaws cells
cells-WireLaws = record {
  uint32_back = put_num-back;
  int32_back = int-back;
  int64_back = int-back;
  uint64_back = int-back;
  bool_back = λ a b rest e. ground arith;
  string_back = λ a b rest e. ground arith;
  bytes_back = λ a b rest e. ground arith;
  delimited_back = λ m b rest e. (num (length m) ∷ [], ground arith, refl);
  uint32_takes = λ b rest n e. ground arith;
  int32_forward = int-forward;
  int64_forward = int-forward;
  uint64_forward = int-forward;
  bool_forward = λ b rest a e. ground arith;
  string_forward = λ b rest a e. ground arith;
  bytes_forward = λ b rest a e. ground arith;
  skip_forward = skip-forward;
}
