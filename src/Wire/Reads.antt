-- ===== src/Wire/Reads.antt =====
-- The decoding loop over bytes that fields have written, one field after another.
use meta_go.Prelude.{
  ℕ, zero, suc, ◌+◌, ◌≤◌, ◌<◌, ◌≡◌, refl, ap, ◌∙◌, List, [], ◌++◌, Option, none, some, true, false,
  arith, append_assoc, append-nil, length, length-append, ltb, leb,
}
use meta_go.Wire.{
  Wire, Reader, Read, got, Case, taken, select, decode_loop, decode_upto, decode_embedded,
  decode_all,
}
use meta_go.Wire.Laws.{WireLaws}

module _ {Byte : Type 0} where
  abbrev pub reader : ℕ → List Byte → ℕ → Reader Byte
  reader at rest depth = record { at = at; rest = rest; depth = depth }

  pub taken_lem :
      {A : Type 0} (a : A) (b rest : List Byte) (o : Option (A × List Byte)) (at depth : ℕ)
      → o ≡ some (a, rest)
      → taken (reader at (b ++ rest) depth) o ≡ got a (reader (at + length b) rest depth)
  taken_lem a b rest none at depth h = cc
  taken_lem a b rest (some (a', r')) at depth h = ground (arith, length-append b rest)

module _ {Byte M : Type 0} (w : Wire Byte) (laws : WireLaws w) (cases : List (Case Byte M)) where
  -- In front of any other bytes, the loop reads `part` and goes on with `m'` in place of `m`.
  -- `height` is how deep the messages embedded in `part` nest.
  abbrev pub Reads : ℕ → List Byte → M → M → Type 0
  Reads height part m m' =
      (fuel end at depth : ℕ) (rest : List Byte)
      → at + length part ≤ end
      → length part ≤ fuel
      → depth + height ≤ 100
      → (fuel' : ℕ) × (fuel ≤ fuel' + length part)
        × (decode_loop w cases fuel end m (reader at (part ++ rest) depth)
            ≡ decode_loop w cases fuel' end m' (reader (at + length part) rest depth))

  pub Reads-nil : (height : ℕ) (m : M) → Reads height [] m m
  Reads-nil height m fuel end at depth rest h k d = (
    fuel,
    omega arith,
    ap (λ (n : ℕ). decode_loop w cases fuel end m (reader n rest depth)) (omega arith),
  )

  pub Reads-append :
      (height : ℕ) (p q : List Byte) (m m' m'' : M)
      → Reads height p m m'
      → Reads height q m' m''
      → Reads height (p ++ q) m m''
  Reads-append height p q m m' m'' f g fuel end at depth rest h k d =
      let (fuel', enough, e) =
        f fuel end at depth (q ++ rest) (omega (arith, length-append p q))
          (omega (arith, length-append p q)) d in
      let (fuel'', enough', e') =
        g fuel' end (at + length p) depth rest (omega (arith, length-append p q))
          (omega (arith, length-append p q)) d in
      (
        fuel'',
        omega (arith, length-append p q),
        ap (λ (l : List Byte). decode_loop w cases fuel end m (reader at l depth))
              (append_assoc p q rest)
            ∙ e
            ∙ e'
            ∙ ap (λ (n : ℕ). decode_loop w cases fuel'' end m'' (reader n rest depth))
                (omega (arith, length-append p q)),
      )

  pub uint32_pos : (n : ℕ) (t : List Byte) → w.uint32 n ≡ some t → 0 < length t
  uint32_pos n t e = omega (
    arith,
    laws.uint32_takes (t ++ []) [] n (laws.uint32_back n t [] e),
    ap length (append-nil t),
  )

  pub lt-ltb : (a b : ℕ) → a < b → ltb a b ≡ true
  lt-ltb a b h = ground arith

  ltb-false : (a b : ℕ) → b ≤ a → ltb a b ≡ false
  ltb-false a b h = ground arith

  leb-false : (a b : ℕ) → b < a → leb a b ≡ false
  leb-false a b h = ground arith

  -- One field: its tag is written, a case accepts it, and the case reads the payload.
  pub Reads-case :
      (height tag : ℕ) (t payload : List Byte) (m m' : M) (h : M → Reader Byte → Read Byte M)
      → w.uint32 tag ≡ some t
      → select tag cases ≡ some h
      → ((at depth : ℕ) (rest : List Byte)
          → depth + height ≤ 100
          → h m (reader at (payload ++ rest) depth)
            ≡ got m' (reader (at + length payload) rest depth))
      → Reads height (t ++ payload) m m'
  unfolding decode_loop
  Reads-case height tag t payload m m' h et es eh zero end at depth rest a k d =
      absurd (omega (arith, uint32_pos tag t et, length-append t payload))
  Reads-case height tag t payload m m' h et es eh (suc fuel) end at depth rest a k d = (
    fuel,
    omega (arith, uint32_pos tag t et, length-append t payload),
    rw
        (
          append_assoc t payload rest,
          lt-ltb at end (omega (arith, uint32_pos tag t et, length-append t payload)),
          taken_lem tag t (payload ++ rest) _ at depth
              (laws.uint32_back tag t (payload ++ rest) et),
          es,
          eh (at + length t) depth rest d,
        )
        (ap (λ (n : ℕ). decode_loop w cases fuel end m' (reader n rest depth))
          (omega (arith, length-append t payload))),
  )

  loop_end :
      (fuel end : ℕ) (m : M) (r : Reader Byte)
      → 0 < fuel
      → end ≤ r.at
      → decode_loop w cases fuel end m r ≡ got m r
  unfolding decode_loop
  loop_end zero end m r k h = elim k [ ]
  loop_end (suc fuel) end m r k h = rw (ltb-false r.at end h) refl

  -- What `decode` makes of bytes that hold the fields of `m'`, whatever stands behind them.
  pub Reads-decode_upto :
      (height : ℕ) (part : List Byte) (m m' : M)
      → Reads height part m m'
      → (at depth : ℕ) (rest : List Byte) → depth + suc height ≤ 100
      → decode_upto w cases m (at + length part) (reader at (part ++ rest) depth)
        ≡ got m' (reader (at + length part) rest depth)
  unfolding decode_upto
  Reads-decode_upto height part m m' f at depth rest d =
      let fuel = suc (length (part ++ rest)) in
      let end = at + length part in
      let (fuel', enough, e) =
        f fuel end at (depth + 1) rest (omega arith) (omega (arith, length-append part rest))
          (omega arith) in
      rw
        (
          leb-false 100 depth (omega arith),
          e,
          loop_end fuel' end m' (reader end rest (depth + 1))
              (omega (arith, length-append part rest)) (omega arith),
        )
        refl

  -- An embedded message behind its length.
  pub Reads-decode_embedded :
      (height : ℕ) (part b : List Byte) (m m' : M)
      → Reads height part m m'
      → w.delimited part ≡ some b
      → (at depth : ℕ) (rest : List Byte) → depth + suc height ≤ 100
      → decode_embedded w cases m (reader at (b ++ rest) depth)
        ≡ got m' (reader (at + length b) rest depth)
  unfolding decode_embedded
  Reads-decode_embedded height part b m m' f e at depth rest d =
      let (n, shape, back) = laws.delimited_back part b rest e in
      rw
        (
          shape,
          append_assoc n part rest,
          taken_lem (length part) n (part ++ rest) _ at depth back,
          Reads-decode_upto height part m m' f (at + length n) depth rest d,
        )
        (ap (λ (k : ℕ). got m' (reader k rest depth)) (omega (arith, length-append n part)))

  -- A whole input.
  pub Reads-decode_all :
      (height : ℕ) (part : List Byte) (m m' : M)
      → Reads height part m m'
      → height < 100
      → decode_all w cases m part ≡ got m' (reader (length part) [] 0)
  unfolding decode_all
  Reads-decode_all height part m m' f h =
      let e = Reads-decode_upto height part m m' f 0 0 [] (omega arith) in
      let z : 0 + length part ≡ length part = omega arith in rw (append-nil part, z) at e
