-- ===== src/Wire/Objects.antt =====
-- The objects with text values of the generated code, such as `details` of an ErrorDetail: what the
-- statement `object[key] = value` of `decode` does.
use text.Mathlib.Text.{◌==◌ as str_eq}
use meta_go.Prelude.{String, true, List, [], ◌∷◌, ◌≢◌, ◌≡◌, if◌then◌else◌}
use meta_go.Wire.Keys.{precedes}

-- A JavaScript object with text values, as its entries in the order of `Object.entries`.
abbrev pub Entries : Type 0
Entries = List (String × String)

unfoldable pub place : String → String → Entries → Entries
unfolding precedes
place k v [] = (k, v) ∷ []
place k v ((j, u) ∷ es) =
    let rest = place k v es in
    if str_eq j k
    then (j, v) ∷ es
    else if precedes j k
    then (j, u) ∷ rest
    else (k, v) ∷ ((j, u) ∷ es)

-- `object[key] = value` for a text. With the key `__proto__` this is the setter of the prototype, which
-- ignores a text: no entry is made.
unfoldable pub assign : String → String → Entries → Entries
unfolding place
assign k v es = if str_eq k "__proto__" then es else place k v es

-- The key is another than those of the entries, and stands before them.
abbrev pub IsBefore : String → Entries → Type 0
IsBefore j [] = Unit
IsBefore j ((k, v) ∷ es) = (j ≢ k) × (precedes j k ≡ true) × IsBefore j es

-- Entries as an object has them, and without an own property `__proto__`.
abbrev pub IsObject : Entries → Type 0
IsObject [] = Unit
IsObject ((j, u) ∷ es) = (j ≢ "__proto__") × IsBefore j es × IsObject es
