-- ===== src/Client/Auth/Parts.antt =====
-- sdk/node/src/client.ts: the cookies and the second factor of a sign-in.
use text.Mathlib.Text.{◌==◌ as str_eq}
use meta_go.Prelude.{
  String, Bool, true, false, List, [], ◌∷◌, Option, none, some, ◌≡◌, refl, Bool-cases, ◌⊎◌, inl,
  inr, ◌||◌, if◌then◌else◌, ◌∙◌, sym, subst,
}
use meta_go.Proto.Auth.{CredentialsSecondFactor, totp, otp, AppStateCookie as ProtoAppStateCookie}
use meta_go.Errors.{JsError, Result, ok, err, ◌>>=◌}
use meta_go.Client.Text.{is_blank}
use meta_go.Client.Auth.{
  AppStateCookie, default, cookie_to_proto, cookies_to_proto, has_text, pick_factor, second_factor,
}

abbrev pub HasKeyAndValue : AppStateCookie → Type 0
HasKeyAndValue c = (is_blank c.key ≡ false) × (str_eq c.value "" ≡ false)

-- The cookie with what the caller left out.
abbrev pub filled : AppStateCookie → ProtoAppStateCookie
filled c = record {
  key = c.key;
  value = c.value;
  domain = default "" c.domain;
  path = default "" c.path;
  host_only = default false c.host_only;
  secure = default false c.secure;
  http_only = default false c.http_only;
}

-- The two lists agree cookie by cookie, and every one of them has a key and a value.
abbrev pub AreWritten : List AppStateCookie → List ProtoAppStateCookie → Type 0
AreWritten [] [] = Unit
AreWritten [] (p ∷ ps) = ⊥
AreWritten (c ∷ cs) [] = ⊥
AreWritten (c ∷ cs) (p ∷ ps) = (HasKeyAndValue c × (p ≡ filled c)) × AreWritten cs ps

abbrev pub IsPresent : Option String → String → Type 0
IsPresent o s = (o ≡ some s) × (is_blank s ≡ false)

abbrev pub IsLeftOut : Option String → Type 0
IsLeftOut none = Unit
IsLeftOut (some s) = is_blank s ≡ true

-- One of the two codes is given, and the other is missing or blank.
abbrev pub IsFactorOf : (t o : Option String) → CredentialsSecondFactor → Type 0
IsFactorOf t o (totp s) = IsPresent t s × IsLeftOut o
IsFactorOf t o (otp s) = IsLeftOut t × IsPresent o s

pub bind-ok {ℓ κ} :
    {A : Type ℓ} {B : Type κ} (m : Result A) (f : A → Result B) (b : B)
    → (m >>= f) ≡ ok b
    → (a : A) × (m ≡ ok a) × (f a ≡ ok b)
bind-ok (ok a) f b h = (a, refl, h)
bind-ok (err e) f b h = absurd (cc)

pub guard-ok {ℓ} :
    {A : Type ℓ} (b : Bool) (e : JsError) (r : Result A) (x : A)
    → (if b then err e else r) ≡ ok x
    → (b ≡ false) × (r ≡ ok x)
guard-ok true e r x h = absurd (cc)
guard-ok false e r x h = (refl, h)

pub ok-injective {ℓ} : {A : Type ℓ} {x y : A} → Path (Result A) (ok x) (ok y) → x ≡ y
ok-injective h = cc

pub err≢ok {ℓ} : {A : Type ℓ} {e : JsError} {x : A} → Path (Result A) (err e) (ok x) → ⊥
err≢ok h = cc

or-false : (a b : Bool) → (a || b) ≡ false → (a ≡ false) × (b ≡ false)
or-false true b h = absurd (cc)
or-false false b h = (refl, h)

cookie_to_proto-ok :
    (c : AppStateCookie) (p : ProtoAppStateCookie)
    → cookie_to_proto c ≡ ok p
    → HasKeyAndValue c × (p ≡ filled c)
unfolding cookie_to_proto
cookie_to_proto-ok c p h = (or-false _ _ g.0, sym (ok-injective g.1))
  where
    g : ((is_blank c.key || str_eq c.value "") ≡ false) × (ok (filled c) ≡ ok p)
    g = guard-ok _ _ (ok (filled c)) p h

pub cookies_to_proto-ok :
    (cs : List AppStateCookie) (ps : List ProtoAppStateCookie)
    → cookies_to_proto cs ≡ ok ps
    → AreWritten cs ps
unfolding cookies_to_proto
cookies_to_proto-ok [] [] h = tt
cookies_to_proto-ok [] (p ∷ ps) h = absurd cc
cookies_to_proto-ok (c ∷ cs) ps h =
    let (p, e, k) = bind-ok (cookie_to_proto c) _ ps h in
    let (qs, d, j) = bind-ok (cookies_to_proto cs) _ ps k in
    subst (AreWritten (c ∷ cs)) (ok-injective j)
      (cookie_to_proto-ok c p e, cookies_to_proto-ok cs qs d)

pub cookies_to_proto-written :
    (cs : List AppStateCookie) (ps : List ProtoAppStateCookie)
    → AreWritten cs ps
    → cookies_to_proto cs ≡ ok ps
unfolding cookies_to_proto cookie_to_proto
cookies_to_proto-written [] [] h = refl
cookies_to_proto-written [] (p ∷ ps) h = absurd h
cookies_to_proto-written (c ∷ cs) [] h = absurd h
cookies_to_proto-written (c ∷ cs) (p ∷ ps) (((k, v), e), h) =
    rw (k, v, cookies_to_proto-written cs ps h, e) refl

text-cases :
    (o : Option String)
    → ((s : String) × (has_text o ≡ true) × IsPresent o s) ⊎ ((has_text o ≡ false) × IsLeftOut o)
unfolding has_text
text-cases none = inr (refl, tt)
text-cases (some s) = elim (Bool-cases (is_blank s)) [
  | inl h ↦ inr (rw h refl, h)
  | inr h ↦ inl (s, rw h refl, (refl, h))
]

left_out-has_text : (o : Option String) → IsLeftOut o → has_text o ≡ false
unfolding has_text
left_out-has_text none h = refl
left_out-has_text (some s) h = rw h refl

present-has_text :
    (o : Option String) (s : String) → IsPresent o s → (has_text o ≡ true) × (default "" o ≡ s)
unfolding has_text
present-has_text o s (e, b) =
    subst (λ x. (has_text x ≡ true) × (default "" x ≡ s)) (sym e) (some-has_text, refl)
  where
    some-has_text : has_text (some s) ≡ true
    some-has_text = rw b refl

pub second_factor-present :
    (t o : Option String) (f : CredentialsSecondFactor)
    → IsFactorOf t o f
    → second_factor t o ≡ ok f
unfolding second_factor
second_factor-present t o (totp s) (p, l) =
    let (e, d) = present-has_text t s p in rw (e, left_out-has_text o l, d) refl
second_factor-present t o (otp s) (l, p) =
    let (e, d) = present-has_text o s p in rw (e, left_out-has_text t l, d) refl

pub second_factor-ok :
    (t o : Option String) (f : CredentialsSecondFactor)
    → second_factor t o ≡ ok f
    → IsFactorOf t o f
unfolding second_factor
second_factor-ok t o f h = elim (text-cases t) [
  | inl x ↦ elim (text-cases o) [
    | inl y ↦ let (s, e, p) = x in let (r, d, q) = y in absurd (both_given e d)
    | inr y ↦ let (s, e, p) = x in let (d, q) = y in same (totp s) (p, q)
  ]
  | inr x ↦ elim (text-cases o) [
    | inl y ↦ let (e, p) = x in let (s, d, q) = y in same (otp s) (p, q)
    | inr y ↦ let (e, p) = x in let (d, q) = y in absurd (none_given e d)
  ]
]
  where
    same : (g : CredentialsSecondFactor) → IsFactorOf t o g → IsFactorOf t o f
    same g k = subst (IsFactorOf t o) (ok-injective (sym (second_factor-present t o g k) ∙ h)) k

    both_given : has_text t ≡ true → has_text o ≡ true → ⊥
    both_given e d = absurd (
        err≢ok (
          subst (λ b. pick_factor b true t o ≡ ok f) e
            (subst (λ b. pick_factor (has_text t) b t o ≡ ok f) d h)))

    none_given : has_text t ≡ false → has_text o ≡ false → ⊥
    none_given e d = absurd (
        err≢ok (
          subst (λ b. pick_factor b false t o ≡ ok f) e
            (subst (λ b. pick_factor (has_text t) b t o ≡ ok f) d h)))
