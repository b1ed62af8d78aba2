-- ===== src/Runtime/Stderr.antt =====
-- sdk/node/src/runtime.ts: what `ManagedRuntime.start` keeps of the process's error output.
use meta_go.Prelude.{
  ℕ, zero, suc, ◌+◌, ◌-◌, ◌≡◌, refl, List, [], ◌∷◌, ◌++◌, length, take, leb, if◌then◌else◌, leb→le,
  ◌≤◌, if-intro, arith, ap, sym, ◌∙◌, append-nil, append_assoc, length-take,
}

abbrev pub max_stderr_bytes : ℕ
max_stderr_bytes = 16384

pub record Stderr : Type 0 where
  pub chunks : List (List ℕ)
  pub count : ℕ

unfoldable pub no_stderr : Stderr
no_stderr = record { chunks = []; count = 0 }

-- The listener of the event `data` of `child.stderr`.
unfoldable pub on_stderr : List ℕ → Stderr → Stderr
on_stderr chunk s =
    if leb max_stderr_bytes s.count
    then s
    else let kept = take (max_stderr_bytes - s.count) chunk in
      record { chunks = s.chunks ++ (kept ∷ []); count = s.count + length kept }

unfoldable pub collect : List (List ℕ) → Stderr → Stderr
collect [] s = s
collect (c ∷ cs) s = collect cs (on_stderr c s)

-- `Buffer.concat`.
unfoldable pub concat : List (List ℕ) → List ℕ
concat [] = []
concat (c ∷ cs) = c ++ concat cs

take-split : (n : ℕ) (xs ys : List ℕ) → take n (xs ++ ys) ≡ take n xs ++ take (n - length xs) ys
take-split zero xs ys = rw (nothing (length xs)) refl
  where
    nothing : (m : ℕ) → 0 - m ≡ 0
    nothing m = omega arith
take-split (suc n) [] ys = ap (λ m. take m ys) same
  where
    same : suc n ≡ suc n - 0
    same = omega arith
take-split (suc n) (x ∷ xs) ys =
    ap (λ l. x ∷ l) (take-split n xs ys ∙ ap (λ m. take n xs ++ take m ys) same)
  where
    same : n - length xs ≡ suc n - suc (length xs)
    same = omega arith

concat-snoc : (cs : List (List ℕ)) (c : List ℕ) → concat (cs ++ (c ∷ [])) ≡ concat cs ++ c
unfolding concat
concat-snoc [] c = append-nil c
concat-snoc (d ∷ cs) c = ap (λ l. d ++ l) (concat-snoc cs c) ∙ sym (append_assoc d (concat cs) c)

left_over :
    (count : ℕ) (chunk : List ℕ)
    → max_stderr_bytes - count - length chunk
      ≡ max_stderr_bytes - (count + length (take (max_stderr_bytes - count) chunk))
left_over count chunk = omega (arith, length-take (max_stderr_bytes - count) chunk)

take-nothing : (n : ℕ) → take n (concat []) ≡ []
unfolding concat
take-nothing zero = refl
take-nothing (suc n) = refl

collect-concat :
    (cs : List (List ℕ)) (s : Stderr)
    → concat (collect cs s).chunks
      ≡ concat s.chunks ++ take (max_stderr_bytes - s.count) (concat cs)
unfolding collect on_stderr concat
collect-concat [] s = sym (
    ap (λ l. concat s.chunks ++ l) (take-nothing (max_stderr_bytes - s.count))
    ∙ append-nil (concat s.chunks))
collect-concat (c ∷ cs) s =
    if-intro
      (λ (x : Stderr).
        concat (collect cs x).chunks
        ≡ concat s.chunks ++ take (max_stderr_bytes - s.count) (c ++ concat cs))
      (leb max_stderr_bytes s.count) _ _
      (λ h. collect-concat cs s ∙ ap (λ l. concat s.chunks ++ l) (full (leb→le _ _ h)))
      (λ h.
        collect-concat cs s'
        ∙ ap (λ l. l ++ take (max_stderr_bytes - s'.count) (concat cs)) (concat-snoc s.chunks kept)
        ∙ append_assoc (concat s.chunks) kept _
        ∙ ap (λ l. concat s.chunks ++ l) (sym split))
  where
    kept : List ℕ
    kept = take (max_stderr_bytes - s.count) c

    s' : Stderr
    s' = record { chunks = s.chunks ++ (kept ∷ []); count = s.count + length kept }

    none_left : max_stderr_bytes ≤ s.count → max_stderr_bytes - s.count ≡ 0
    none_left h = omega arith

    full :
        max_stderr_bytes ≤ s.count
        → take (max_stderr_bytes - s.count) (concat cs)
          ≡ take (max_stderr_bytes - s.count) (c ++ concat cs)
    full h =
        ap (λ m. take m (concat cs)) (none_left h)
        ∙ sym (ap (λ m. take m (c ++ concat cs)) (none_left h))

    split :
        take (max_stderr_bytes - s.count) (c ++ concat cs)
        ≡ kept ++ take (max_stderr_bytes - s'.count) (concat cs)
    split =
        take-split (max_stderr_bytes - s.count) c (concat cs)
        ∙ ap (λ m. kept ++ take m (concat cs)) (left_over s.count c)

-- What is kept of the error output is its first 16 KiB, however the pipe cuts it into chunks.
pub collect-no_stderr :
    (cs : List (List ℕ)) → concat (collect cs no_stderr).chunks ≡ take max_stderr_bytes (concat cs)
unfolding no_stderr concat
collect-no_stderr cs = collect-concat cs no_stderr
