-- ===== src/Runtime/Distribution/Search.antt =====
-- sdk/node/src/distribution.ts and runtime-package.ts: the order of the search for the runtime, and what it
-- finds.
use text.Mathlib.Text.{◌==◌ as str_eq}
use Prim.Native.Char.{Char}
use meta_go.Prelude.{
  String, Bool, true, false, List, [], ◌∷◌, ◌++◌, All, Option, none, some, ◌≡◌, refl, ap, ◌∙◌,
  subst, ◌⊎◌, inl, inr, Bool-cases, if-intro, if◌then◌else◌,
}
use meta_go.Errors.{JsError, ok, err}
use meta_go.Client.Auth.Parts.{bind-ok, ok-injective, err≢ok}
use meta_go.Runtime.Distribution.{
  RuntimeTarget, runtime_target, Resolution, resolved, failed, module_missing, bundled_at,
  resolve_bundled_runtime, split, non_empty, first_executable, find_on_path, given, Lookup,
  installed, bundled_or, searched, first_given, resolve_runtime_path,
}

module _ (can_execute : String → Bool) (join : String → String → String) where
  -- The first of the directories with a file that can be executed, or none where there is no such file.
  abbrev pub IsFirst : String → Option String → List String → Type 0
  IsFirst f none ds = All (λ d. can_execute (join d f) ≡ false) ds
  IsFirst f (some p) ds =
      (before : List String) × (d : String) × (after : List String) × (ds ≡ before ++ (d ∷ after))
      × All (λ x. can_execute (join x f) ≡ false) before
      × (join d f ≡ p)
      × (can_execute p ≡ true)

  later-IsFirst :
      (f : String) (o : Option String) (d : String) (ds : List String)
      → can_execute (join d f) ≡ false
      → IsFirst f o ds
      → IsFirst f o (d ∷ ds)
  later-IsFirst f none d ds h k = (h, k)
  later-IsFirst f (some p) d ds h (before, x, after, e, k, j, c) =
      (d ∷ before, x, after, ap (λ l. d ∷ l) e, (h, k), j, c)

  -- The search over the directories of PATH takes the first one where the file can be executed, and finds
  -- nothing just where there is none.
  pub first_executable-IsFirst :
      (f : String) (ds : List String) → IsFirst f (first_executable can_execute join f ds) ds
  unfolding first_executable
  first_executable-IsFirst f [] = tt
  first_executable-IsFirst f (d ∷ ds) =
      if-intro (λ o. IsFirst f o (d ∷ ds)) (can_execute (join d f)) _ _
        (λ h. ([], d, ds, refl, tt, refl, h))
        (λ h.
          later-IsFirst f (first_executable can_execute join f ds) d ds h
            (first_executable-IsFirst f ds))

  find_on_path-executable :
      (delimiter : Char) (f : String) (path : Option String) (p : String)
      → find_on_path can_execute join delimiter f path ≡ some p
      → can_execute p ≡ true
  unfolding find_on_path
  find_on_path-executable delimiter f none p h = absurd (cc)
  find_on_path-executable delimiter f (some s) p h = elim (Bool-cases (str_eq s "")) [
    | inl e ↦ absurd (
        none≢some (
          subst
            (λ b.
              (if b
                then none
                else first_executable can_execute join f (non_empty (split delimiter s)))
              ≡ some p)
            e h))
    | inr e ↦
        let ds = non_empty (split delimiter s) in
        let h' =
          subst (λ b. (if b then none else first_executable can_execute join f ds) ≡ some p) e h in
        found (subst (λ o. IsFirst f o ds) h' (first_executable-IsFirst f ds))
  ]
    where
      none≢some : {x : String} → Path (Option String) none (some x) → ⊥
      none≢some h = cc

      found : {ds : List String} → IsFirst f (some p) ds → can_execute p ≡ true
      found (before, x, after, e, k, j, c) = c

some-injective : {x y : String} → Path (Option String) (some x) (some y) → x ≡ y
some-injective h = cc

given-some : (o : Option String) (p : String) → given o ≡ some p → o ≡ some p
given-some none p h = h
given-some (some s) p h = go (str_eq s "") h
  where
    go : (b : Bool) → (if b then none else some s) ≡ some p → some s ≡ some p
    go true k = absurd (cc)
    go false k = k

module _ (resolve : String → Resolution) (can_execute : String → Bool)
    (join : String → String → String) (delimiter : Char) where
  bundled_at-executable :
      (name : String) (r : Resolution) (p : String)
      → bundled_at can_execute name r ≡ ok (some p)
      → can_execute p ≡ true
  bundled_at-executable name (failed c) p h = absurd (go (module_missing c) _ h)
    where
      go : (b : Bool) (e : JsError) → (if b then ok none else err e) ≡ ok (some p) → ⊥
      go true e k = cc
      go false e k = cc
  bundled_at-executable name (resolved q) p h = go (can_execute q) _ refl h
    where
      go :
          (b : Bool) (e : JsError)
          → can_execute q ≡ b
          → (if b then ok (some q) else err e) ≡ ok (some p)
          → can_execute p ≡ true
      go true e j k = subst (λ x. can_execute x ≡ true) (some-injective (ok-injective k)) j
      go false e j k = absurd (err≢ok k)

  bundled_or-executable :
      (b : Option String) (t : RuntimeTarget) (path : Option String) (p : String)
      → ((q : String) → b ≡ some q → can_execute q ≡ true)
      → bundled_or resolve can_execute join delimiter b t path ≡ ok p
      → can_execute p ≡ true
  bundled_or-executable (some q) t path p k h = k p (ap some (ok-injective h))
  bundled_or-executable none t path p k h =
      find_on_path-executable can_execute join delimiter t.filename path p
        (go (find_on_path can_execute join delimiter t.filename path) h)
    where
      go : (o : Option String) → installed t.filename o ≡ ok p → o ≡ some p
      go none j = absurd (err≢ok j)
      go (some q) j = ap some (ok-injective j)

  searched-executable :
      (l : Lookup) (p : String)
      → searched resolve can_execute join delimiter l ≡ ok p
      → can_execute p ≡ true
  unfolding resolve_bundled_runtime
  searched-executable l p h =
      let (t, a, h1) = bind-ok (runtime_target l.platform l.arch) _ p h in
      let (b, c, h2) = bind-ok (resolve_bundled_runtime can_execute resolve t) _ p h1 in
      bundled_or-executable b t l.env_path p (λ q e. bundled_at-executable _ _ q (c ∙ ap ok e)) h2

  -- The path that is run is the caller's, or the one of the environment where the caller names none, or it is
  -- a file that can be executed. Which of the later sources comes first is not stated.
  pub resolve_runtime_path_lem :
      (l : Lookup) (p : String)
      → resolve_runtime_path resolve can_execute join delimiter l ≡ ok p
      → (l.runtime_path ≡ some p)
        ⊎ ((given l.runtime_path ≡ none) × ((l.env_runtime_path ≡ some p) ⊎ (can_execute p ≡ true)))
  unfolding resolve_runtime_path
  resolve_runtime_path_lem l p h = go (given l.runtime_path) (given l.env_runtime_path) refl refl h
    where
      go :
          (x y : Option String)
          → given l.runtime_path ≡ x
          → given l.env_runtime_path ≡ y
          → first_given resolve can_execute join delimiter x y l ≡ ok p
          → (l.runtime_path ≡ some p)
            ⊎ ((given l.runtime_path ≡ none)
                × ((l.env_runtime_path ≡ some p) ⊎ (can_execute p ≡ true)))
      go (some q) y a b k = inl (given-some l.runtime_path p (a ∙ ap some (ok-injective k)))
      go none (some q) a b k =
          inr (a, inl (given-some l.env_runtime_path p (b ∙ ap some (ok-injective k))))
      go none none a b k = inr (a, inr (searched-executable l p k))
