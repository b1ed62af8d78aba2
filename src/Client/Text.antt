-- ===== src/Client/Text.antt =====
-- sdk/node/src/client.ts: the test `text.trim() === ""`.
use Prim.Native.String.{String, [], ◌∷◌}
use Prim.Native.Char.{code}
use meta_go.Prelude.{ℕ, Bool, true, ◌&&◌, ◌||◌, ◌==◌, leb}

-- The code points that `trim` removes: ECMAScript's WhiteSpace and LineTerminator.
unfoldable pub is_space : ℕ → Bool
is_space c =
    (leb 9 c && leb c 13)
    || c == 32
    || c == 160
    || c == 5760
    || (leb 8192 c && leb c 8202)
    || c == 8232
    || c == 8233
    || c == 8239
    || c == 8287
    || c == 12288
    || c == 65279

-- `text.trim() === ""`.
unfoldable pub is_blank : String → Bool
is_blank [] = true
is_blank (c ∷ s) = is_space (code c) && is_blank s
