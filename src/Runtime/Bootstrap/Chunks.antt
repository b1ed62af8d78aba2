-- ===== src/Runtime/Bootstrap/Chunks.antt =====
-- sdk/node/src/runtime.ts: `readBootstrap` does not depend on how the pipe cuts the line into chunks.
use meta_go.Prelude.{
  ℕ, ◌≤◌, Bool, true, false, List, [], ◌∷◌, ◌++◌, map, append_assoc, append-nil, length,
  length-append, Option, none, some, ◌≡◌, refl, sym, ap, ◌∙◌, subst, le→leb, ◌==◌, arith,
  if◌then◌else◌, Option-cases, inl, inr,
}
use meta_go.Runtime.Bootstrap.{
  Fields, Settlement, ChildEvent, on_data, Reading, max_bootstrap_bytes, start_reading,
  check_fields, extended, respond, first_line, of_line, examine, on_event, read_bootstrap,
}
use meta_go.Runtime.Stderr.{concat}

first_line-append : (xs ys l : List ℕ) → first_line xs ≡ some l → first_line (xs ++ ys) ≡ some l
unfolding first_line
first_line-append [] ys l h = absurd (cc)
first_line-append (x ∷ xs) ys l h =
    go (x == 10) (first_line xs) (first_line (xs ++ ys)) (first_line-append xs ys) l h
  where
    go :
        (b : Bool) (o o' : Option (List ℕ))
        → ((m : List ℕ) → o ≡ some m → o' ≡ some m)
        → (m : List ℕ) → (if b then some [] else extended x o) ≡ some m
        → (if b then some [] else extended x o') ≡ some m
    go true o o' k m h = h
    go false none o' k m h = absurd (cc)
    go false (some n) o' k m h = rw (k n refl) h

module _ (parse : List ℕ → Option Fields) where
  -- Nothing that the process does changes a promise that has settled.
  pub read_bootstrap-settled :
      (es : List ChildEvent) (r : Reading) (o : Settlement)
      → r.settled ≡ some o
      → read_bootstrap parse es r ≡ r
  unfolding read_bootstrap on_event
  read_bootstrap-settled [] r o h = refl
  read_bootstrap-settled (e ∷ es) r o h =
      ap (read_bootstrap parse es) (subst (λ x. respond parse x e r ≡ r) (sym h) refl)
      ∙ read_bootstrap-settled es r o h

  examine-small :
      (bs : List ℕ)
      → length bs ≤ max_bootstrap_bytes
      → examine parse bs ≡ of_line parse (first_line bs)
  unfolding examine
  examine-small bs h = rw (le→leb (length bs) max_bootstrap_bytes h) refl

  read_chunks :
      (cs : List (List ℕ)) (r : Reading)
      → r.settled ≡ none
      → first_line r.bytes ≡ none
      → length (r.bytes ++ concat cs) ≤ max_bootstrap_bytes
      → (read_bootstrap parse (map on_data cs) r).settled
        ≡ of_line parse (first_line (r.bytes ++ concat cs))
  unfolding read_bootstrap on_event concat
  read_chunks [] r s n b =
      s ∙ sym (ap (λ bs. of_line parse (first_line bs)) (append-nil r.bytes) ∙ ap (of_line parse) n)
  read_chunks (c ∷ cs) r s n b =
      ap (λ x. (read_bootstrap parse (map on_data cs) x).settled) arrives
      ∙ elim (Option-cases (first_line (r.bytes ++ c))) [
        | inl e ↦
            read_chunks cs r' (examined ∙ ap (of_line parse) e) e
              (subst (λ bs. length bs ≤ max_bootstrap_bytes) joined b)
            ∙ ap (λ bs. of_line parse (first_line bs)) (sym joined)
        | inr y ↦ let (l, e) = y in ended l e
      ]
    where
      r' : Reading
      r' = record { bytes = r.bytes ++ c; settled = examine parse (r.bytes ++ c) }

      arrives : on_event parse (on_data c) r ≡ r'
      arrives = subst (λ x. respond parse x (on_data c) r ≡ r') (sym s) refl

      joined : r.bytes ++ (c ++ concat cs) ≡ (r.bytes ++ c) ++ concat cs
      joined = sym (append_assoc r.bytes c (concat cs))

      shorter : length (r.bytes ++ c) ≤ max_bootstrap_bytes
      shorter = omega (
        arith,
        length-append (r.bytes ++ c) (concat cs),
        subst (λ bs. length bs ≤ max_bootstrap_bytes) joined b,
      )

      examined : examine parse (r.bytes ++ c) ≡ of_line parse (first_line (r.bytes ++ c))
      examined = examine-small (r.bytes ++ c) shorter

      ended :
          (l : List ℕ)
          → first_line (r.bytes ++ c) ≡ some l
          → (read_bootstrap parse (map on_data cs) r').settled
            ≡ of_line parse (first_line (r.bytes ++ (c ++ concat cs)))
      ended l e =
          ap (λ x. x.settled) (read_bootstrap-settled (map on_data cs) r' _ now)
          ∙ now
          ∙ sym (
              ap (of_line parse)
                (ap first_line joined ∙ first_line-append (r.bytes ++ c) (concat cs) l e))
        where
          now : r'.settled ≡ some (check_fields (parse l))
          now = examined ∙ ap (of_line parse) e

  -- However the pipe cuts at most 64 KiB into chunks, the promise settles to what the first line of the whole
  -- says, and stays pending without a newline.
  pub read_bootstrap-chunks :
      (cs : List (List ℕ))
      → length (concat cs) ≤ max_bootstrap_bytes
      → (read_bootstrap parse (map on_data cs) start_reading).settled
        ≡ of_line parse (first_line (concat cs))
  unfolding start_reading first_line
  read_bootstrap-chunks cs b = read_chunks cs start_reading refl refl b
