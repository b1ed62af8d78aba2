-- ===== src/Wire/Keys.antt =====
-- The order of an object's keys, in which `Object.entries` lists them for the generated `encode`.
use Prim.Native.String.{String, [], ◌∷◌}
use Prim.Native.Char.{Char, code}
use text.Mathlib.Text.{◌==◌ as str_eq}
use meta_go.Prelude.{
  ℕ, ◌+◌, ◌-◌, ◌*◌, ◌^◌, Bool, true, false, ◌&&◌, Option, none, some, ltb, leb, ◌==◌, if◌then◌else◌,
}

is_digit : Char → Bool
is_digit c = leb 48 (code c) && leb (code c) 57

unfoldable pub decimal : ℕ → String → Option ℕ
unfolding is_digit
decimal n [] = some n
decimal n (c ∷ s) =
    let rest = decimal (10 * n + (code c - 48)) s in if is_digit c then rest else none

abbrev in_range : Option ℕ → Option ℕ
in_range none = none
in_range (some n) = if ltb n (2 ^ 32 - 1) then some n else none

-- The key as an array index of ECMAScript: a decimal without leading zeros, below 2 ^ 32 - 1.
unfoldable pub array_index : String → Option ℕ
unfolding decimal
array_index [] = none
array_index (c ∷ s) =
    if str_eq (c ∷ s) "0"
    then some 0
    else if code c == 48
    then none
    else in_range (decimal 0 (c ∷ s))

abbrev before : Option ℕ → Option ℕ → Bool
before (some m) (some n) = ltb m n
before (some m) none = true
before none (some n) = false
before none none = true

-- A key that is there stands before a new one: array indices come first, in ascending order, and all
-- other keys in the order in which they were assigned.
unfoldable pub precedes : String → String → Bool
unfolding array_index
precedes j k = before (array_index j) (array_index k)
