-- ===== src/Wire/Bounded.antt =====
-- The decoding loop ends: its fuel is enough on every input, malformed ones too.
use meta_go.Prelude.{
  ℕ, zero, suc, ◌+◌, ◌≤◌, ◌<◌, ◌≡◌, refl, List, [], ◌∷◌, Option, none, some, arith, length, ltb,
  leb, All, ◌==◌, ◌||◌, ◌%◌, Bool-cases, Option-cases, inl, inr,
}
use meta_go.Wire.{
  Wire, Reader, Read, got, thrown, stuck, Case, advance, taken, skipped, select, round, decode_loop,
  decode_upto, decode_embedded, decode_all, ◌>>=◌,
}
use meta_go.Wire.Laws.{WireLaws, GoesForward}
use meta_go.Wire.Encode.{set_by, set_message}

-- The result is not `stuck`, and its reader has no more bytes left than `n`.
abbrev pub Within : {Byte A : Type 0} → ℕ → Read Byte A → Type 0
Within n (got a r) = length r.rest ≤ n
Within n thrown = Unit
Within n stuck = ⊥

module _ {Byte : Type 0} where
  Within-bind :
      {A B : Type 0} (n : ℕ) (x : Read Byte A) (f : A → Reader Byte → Read Byte B)
      → Within n x
      → ((a : A) (r : Reader Byte) → length r.rest ≤ n → Within n (f a r))
      → Within n (x >>= f)
  Within-bind n (got a r) f h k = k a r h
  Within-bind n thrown f h k = tt
  Within-bind n stuck f h k = h

  Within-le : {A : Type 0} (n m : ℕ) (x : Read Byte A) → Within n x → n ≤ m → Within m x
  Within-le n m (got a r) h k = omega arith
  Within-le n m thrown h k = tt
  Within-le n m stuck h k = h

  Within-taken :
      {A : Type 0} (r : Reader Byte) (n : ℕ) (o : Option (A × List Byte))
      → ((a : A) (rest : List Byte) → o ≡ some (a, rest) → length rest ≤ n)
      → Within n (taken r o)
  Within-taken r n none h = tt
  Within-taken r n (some (a, rest)) h = h a rest refl

  Within-skipped :
      {M : Type 0} (m : M) (r : Reader Byte) (n : ℕ) (o : Option (List Byte))
      → ((rest : List Byte) → o ≡ some rest → length rest ≤ n)
      → Within n (skipped m r o)
  Within-skipped m r n none h = tt
  Within-skipped m r n (some rest) h = h rest refl

  -- Each case of a switch gets by with the bytes that it is given.
  abbrev pub IsForward : {M : Type 0} → List (Case Byte M) → Type 0
  IsForward {M} cases =
      All (λ c. (m : M) (r : Reader Byte) → Within (length r.rest) (c.1 m r)) cases

  select-Within :
      {M : Type 0} (tag : ℕ) (cases : List (Case Byte M)) (h : M → Reader Byte → Read Byte M)
      → IsForward cases
      → select tag cases ≡ some h
      → (m : M) (r : Reader Byte) → Within (length r.rest) (h m r)
  select-Within tag [] h f e m r = cc
  select-Within tag ((t, g) ∷ cs) h f e m r = elim (Bool-cases (tag == t)) [
    | inl same ↦ let first : g ≡ h = cc (e, same) in rw (← first) (f.0 m r)
    | inr other ↦ select-Within tag cs h f.1 (rw other at e) m r
  ]

module _ {Byte M : Type 0} (w : Wire Byte) (laws : WireLaws w) (cases : List (Case Byte M))
    (forward : IsForward cases) where
  round-Within :
      (tag : ℕ) (m : M) (r : Reader Byte) (again : M → Reader Byte → Read Byte M)
      (o : Option (M → Reader Byte → Read Byte M))
      → select tag cases ≡ o
      → ((m' : M) (r' : Reader Byte)
          → length r'.rest ≤ length r.rest
          → Within (length r.rest) (again m' r'))
      → Within (length r.rest) (round w cases tag m r again o)
  unfolding round
  round-Within tag m r again (some h) e k =
      Within-bind (length r.rest) (h m r) again (select-Within tag cases h forward e m r) k
  round-Within tag m r again none e k = elim (Bool-cases ((tag % 8 == 4) || (tag == 0))) [
    | inl stop ↦ rw stop (omega arith)
    | inr go ↦ rw go (
        Within-bind (length r.rest) (skipped m r (w.skip (tag % 8) r.rest)) again
          (Within-skipped m r (length r.rest) _
            (λ rest e'. laws.skip_forward (tag % 8) r.rest rest e'))
          k)
  ]

  loop-Within :
      (fuel end : ℕ) (m : M) (r : Reader Byte)
      → length r.rest < fuel
      → Within (length r.rest) (decode_loop w cases fuel end m r)
  unfolding decode_loop
  loop-Within zero end m r h = elim h [ ]
  loop-Within (suc fuel) end m r h = elim (Bool-cases (ltb r.at end)) [
    | inl more ↦ rw more (elim (Option-cases (w.read_uint32 r.rest)) [
      | inl ended ↦ rw ended tt
      | inr ((tag, rest'), read) ↦
          rw read (
            tagged_round tag rest' (loop-Within fuel end) (laws.uint32_takes r.rest rest' tag read))
    ])
    | inr stop ↦ rw stop (omega arith)
  ]
    where
      tagged_round :
          (tag : ℕ) (rest' : List Byte)
          → ((m' : M) (r' : Reader Byte)
              → length r'.rest < fuel
              → Within (length r'.rest) (decode_loop w cases fuel end m' r'))
          → length rest' < length r.rest
          → Within (length r.rest) (
              round w cases tag m
                (advance r rest')
                (decode_loop w cases fuel end)
                (select tag cases))
      tagged_round tag rest' again shorter =
          Within-le (length rest') (length r.rest) _
            (round-Within tag m (advance r rest') (decode_loop w cases fuel end) (select tag cases)
              refl
              (λ m' r' le.
                Within-le (length r'.rest) (length rest') _ (again m' r' (omega arith)) le))
            (omega arith)

  pub decode_upto-Within :
      (base : M) (end : ℕ) (r : Reader Byte)
      → Within (length r.rest) (decode_upto w cases base end r)
  unfolding decode_upto
  decode_upto-Within base end r = elim (Bool-cases (leb 100 r.depth)) [
    | inl deep ↦ rw deep tt
    | inr fine ↦ rw fine (
        Within-bind (length r.rest)
          (decode_loop w cases (suc (length r.rest)) end base (record r { depth = r.depth + 1 })) _
          (loop-Within (suc (length r.rest)) end base (record r { depth = r.depth + 1 })
            (omega arith))
          (λ m r' le. le))
  ]

  pub decode_embedded-Within :
      (base : M) (r : Reader Byte) → Within (length r.rest) (decode_embedded w cases base r)
  unfolding decode_embedded
  decode_embedded-Within base r =
      Within-bind (length r.rest) (taken r (w.read_uint32 r.rest)) _
        (Within-taken r (length r.rest) (w.read_uint32 r.rest)
          (λ n rest e. omega (arith, laws.uint32_takes r.rest rest n e)))
        (λ len r' le.
          Within-le (length r'.rest) (length r.rest) _ (decode_upto-Within base (r'.at + len) r')
            le)

  not_stuck : (n : ℕ) (x : Read Byte M) → Within n x → ¬ (x ≡ stuck)
  not_stuck n (got a r) h e = cc
  not_stuck n thrown h e = cc
  not_stuck n stuck h e = absurd h

  -- Whatever the input, `decode` returns a message or throws.
  pub decode_all-ne-stuck :
      (base : M) (input : List Byte) → ¬ (decode_all w cases base input ≡ stuck)
  unfolding decode_all
  decode_all-ne-stuck base input =
      not_stuck (length input) (decode_upto w cases base (length input) start)
        (decode_upto-Within base (length input) start)
    where
      start : Reader Byte
      start = record { at = 0; rest = input; depth = 0 }

module _ {Byte M A : Type 0} where
  pub set_by-Within :
      (read : List Byte → Option (A × List Byte)) (set : M → A → M)
      → GoesForward read
      → (m : M) (r : Reader Byte) → Within (length r.rest) (set_by read set m r)
  set_by-Within read set g m r =
      Within-bind (length r.rest) (taken r (read r.rest)) _
        (Within-taken r (length r.rest) (read r.rest) (λ a rest e. g r.rest rest a e))
        (λ a r' le. le)

  pub set_message-Within :
      (decode : Reader Byte → Read Byte A) (set : M → A → M)
      → ((r : Reader Byte) → Within (length r.rest) (decode r))
      → (m : M) (r : Reader Byte) → Within (length r.rest) (set_message decode set m r)
  set_message-Within decode set g m r =
      Within-bind (length r.rest) (decode r) _ (g r) (λ a r' le. le)
