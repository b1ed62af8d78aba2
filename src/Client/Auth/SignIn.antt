-- ===== src/Client/Auth/SignIn.antt =====
-- sdk/node/src/client.ts: what `sessionAuthToProto` accepts, and the message it makes of it.
use text.Mathlib.Text.{◌==◌ as str_eq}
use meta_go.Prelude.{false, List, [], ◌∷◌, Option, none, some, ◌≡◌, ◌≢◌, refl, ◌↔◌, ap, sym, subst}
use meta_go.Wire.Objects.{Entries}
use meta_go.Proto.Auth.{
  CredentialsSecondFactor, SessionAuthSource, cookies, app_state, credentials,
  SessionAuth as ProtoSessionAuth,
}
use meta_go.Errors.{ok}
use meta_go.Client.Auth.Parts.{
  AreWritten, IsFactorOf, bind-ok, guard-ok, ok-injective, err≢ok, cookies_to_proto-ok,
  cookies_to_proto-written, second_factor-present, second_factor-ok,
}
use meta_go.Client.Text.{is_blank}
use meta_go.Client.Auth.{
  AppStateCookie, Credentials, SessionAuth, cookies_to_proto, app_state_to_proto, second_factor,
  credentials_to_proto, source_to_proto, session_auth_to_proto,
}

-- The source that a message of sign-in carries for what the caller gave: the first of the three.
abbrev pub IsSourceOf :
    Option Entries → Option (List AppStateCookie) → Option Credentials → SessionAuthSource → Type 0
IsSourceOf es ys cs (cookies m) = es ≡ some m.values
IsSourceOf none ys cs (app_state a) =
    (xs : List AppStateCookie) × (ys ≡ some xs) × (xs ≢ []) × AreWritten xs a.cookies
IsSourceOf none none (some c) (credentials p) =
    (is_blank c.identifier ≡ false)
    × (str_eq c.password "" ≡ false)
    × ((f : CredentialsSecondFactor) × (p
          ≡ record { identifier = c.identifier; password = c.password; second_factor = some f })
        × IsFactorOf c.totp c.otp f)
IsSourceOf _ _ _ _ = ⊥

credentials_to_proto-ok :
    (c : Credentials) (m : SessionAuthSource)
    → credentials_to_proto c ≡ ok m
    → IsSourceOf none none (some c) m
unfolding credentials_to_proto
credentials_to_proto-ok c m h =
    let (a, h1) = guard-ok (is_blank c.identifier) _ _ m h in
    let (b, h2) = guard-ok (str_eq c.password "") _ _ m h1 in
    let (f, e, h3) = bind-ok (second_factor c.totp c.otp) _ m h2 in
    subst (IsSourceOf none none (some c)) (ok-injective h3)
      (a, b, (f, refl, second_factor-ok c.totp c.otp f e))

source_to_proto-ok :
    (es : Option Entries) (cs : Option (List AppStateCookie)) (c : Option Credentials)
    (m : SessionAuthSource)
    → source_to_proto es cs c ≡ ok m
    → IsSourceOf es cs c m
unfolding source_to_proto app_state_to_proto
source_to_proto-ok (some es) cs c m h = subst (IsSourceOf (some es) cs c) (ok-injective h) refl
source_to_proto-ok none (some []) c m h = absurd (err≢ok h)
source_to_proto-ok none (some (x ∷ xs)) c m h =
    let (ps, e, k) = bind-ok (cookies_to_proto (x ∷ xs)) _ m h in
    subst (IsSourceOf none (some (x ∷ xs)) c) (ok-injective k)
      (x ∷ xs, refl, (λ q. cc), cookies_to_proto-ok (x ∷ xs) ps e)
source_to_proto-ok none none (some c) m h = credentials_to_proto-ok c m h
source_to_proto-ok none none none m h = absurd (err≢ok h)

some-injective : {A : Type 0} {x y : A} → Path (Option A) (some x) (some y) → x ≡ y
some-injective h = cc

source_to_proto-back :
    (es : Option Entries) (cs : Option (List AppStateCookie)) (c : Option Credentials)
    (m : SessionAuthSource)
    → IsSourceOf es cs c m
    → source_to_proto es cs c ≡ ok m
unfolding source_to_proto app_state_to_proto credentials_to_proto
source_to_proto-back (some es) cs c (cookies m) h =
    ap (λ e. ok (cookies (record { values = e }))) (some-injective h)
source_to_proto-back none cs c (cookies m) h = absurd (cc)
source_to_proto-back none (some []) c (app_state a) (xs, e, n, w) = absurd (n (cc))
source_to_proto-back none (some (x ∷ xs)) c (app_state a) (ys, e, n, w) =
    let w' = subst (λ l. AreWritten l a.cookies) (sym (some-injective e)) w in
    rw (cookies_to_proto-written (x ∷ xs) a.cookies w') refl
source_to_proto-back none none (some c) (credentials p) (i, q, (f, e, k)) =
    rw (i, q, second_factor-present c.totp c.otp f k, e) refl
source_to_proto-back none none c (app_state a) (xs, e, n, w) = absurd (cc)
source_to_proto-back none none none (credentials p) h = absurd h
source_to_proto-back none (some x) c (credentials p) h = absurd h
source_to_proto-back (some es) cs c (app_state a) h = absurd h
source_to_proto-back (some es) cs c (credentials p) h = absurd h

-- A sign-in is accepted exactly when its first source, in the order cookies, app state, credentials, is
-- complete: an app state with a cookie, each with a key and a value; credentials with an identifier, a
-- password, and one of the two codes while the other is missing or blank. The message carries that source.
pub session_auth_to_proto_iff :
    (auth : SessionAuth) (p : ProtoSessionAuth)
    → (session_auth_to_proto auth ≡ ok p) ↔ (
        (m : SessionAuthSource) × (p.source ≡ some m)
        × IsSourceOf auth.cookies auth.app_state auth.credentials m)
unfolding session_auth_to_proto
session_auth_to_proto_iff auth p = (there, back)
  where
    there :
        session_auth_to_proto auth ≡ ok p
        → (m : SessionAuthSource) × (p.source ≡ some m)
          × IsSourceOf auth.cookies auth.app_state auth.credentials m
    there h =
        let (m, e, k) =
          bind-ok (source_to_proto auth.cookies auth.app_state auth.credentials) _ p h in
        (m, sym (ap (λ x. x.source) (ok-injective k)), source_to_proto-ok _ _ _ m e)

    back :
        ((m : SessionAuthSource) × (p.source ≡ some m)
          × IsSourceOf auth.cookies auth.app_state auth.credentials m)
        → session_auth_to_proto auth ≡ ok p
    back (m, e, k) =
        rw (source_to_proto-back _ _ _ m k) (ap (λ s. ok (record { source = s })) (sym e))
