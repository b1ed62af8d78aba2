-- ===== src/Client/Calls/Requests.antt =====
-- sdk/node/src/client.ts: what `createSession` and `refreshAuth` send, and when they send it.
use meta_go.Prelude.{
  String, true, false, List, Option, none, some, ◌≡◌, refl, sym, ◌∙◌, inl, inr, arith, subst, ◌⊎◌,
  ◌<◌, ◌^◌,
}
use meta_go.Proto.Google.{Duration}
use meta_go.Proto.Auth.{SessionAuthSource, SessionAuth as ProtoSessionAuth}
use meta_go.Proto.Snapshot.{RefreshAuthRequest}
use meta_go.Proto.Session.{CreateSessionRequest}
use meta_go.Errors.{ok, ◌>>=◌}
use meta_go.Client.Timeout.{
  Number, IsPositive, whole, Lasts, duration_from_milliseconds, duration_from_milliseconds_lem,
}
use meta_go.Client.Auth.{SessionAuth, default, session_auth_to_proto}
use meta_go.Client.Auth.Parts.{bind-ok, ok-injective, err≢ok}
use meta_go.Client.Auth.SignIn.{IsSourceOf, session_auth_to_proto_iff}
use meta_go.Client.Calls.{
  CreateSessionOptions, has_capability, require_capability, require_for, require_auth_capability,
  optional, create_session_request, refresh_auth_request,
}

-- The capability, if the member is given.
abbrev pub Allows : {A : Type 0} → List String → String → Option A → Type 0
Allows caps c none = Unit
Allows caps c (some a) = has_capability caps c ≡ true

abbrev pub AllowsAuth : List String → SessionAuth → Type 0
AllowsAuth caps auth =
    Allows caps "session.auth.app_state" auth.app_state
    × Allows caps "session.auth.credentials" auth.credentials

-- The message holds the sign-in that `IsSourceOf` describes.
abbrev pub IsSignIn : SessionAuth → Option ProtoSessionAuth → Type 0
IsSignIn auth none = ⊥
IsSignIn auth (some p) =
    (m : SessionAuthSource) × (p.source ≡ some m)
    × IsSourceOf auth.cookies auth.app_state auth.credentials m

abbrev pub IsTimeoutOf : Option Number → Option Duration → Type 0
IsTimeoutOf none none = Unit
IsTimeoutOf none (some d) = ⊥
IsTimeoutOf (some n) none = ⊥
IsTimeoutOf (some n) (some d) = IsPositive n × (Lasts d (whole n) ⊎ (2 ^ 53 < whole n))

abbrev pub IsRefreshOf : List String → Option SessionAuth → Option ProtoSessionAuth → Type 0
IsRefreshOf caps none none = Unit
IsRefreshOf caps none (some p) = ⊥
IsRefreshOf caps (some auth) p = AllowsAuth caps auth × IsSignIn auth p

require_capability-ok :
    (caps : List String) (c : String) (u : Unit)
    → require_capability caps c ≡ ok u
    → has_capability caps c ≡ true
unfolding require_capability
require_capability-ok caps c u h = ground arith

require_for-ok :
    {A : Type 0} (caps : List String) (c : String) (o : Option A) (u : Unit)
    → require_for caps c o ≡ ok u
    → Allows caps c o
unfolding require_for
require_for-ok caps c none u h = tt
require_for-ok caps c (some a) u h = require_capability-ok caps c u h

require_auth_capability-ok :
    (caps : List String) (auth : SessionAuth) (u : Unit)
    → require_auth_capability caps auth ≡ ok u
    → AllowsAuth caps auth
unfolding require_auth_capability
require_auth_capability-ok caps auth u h =
    let (v, e, k) = bind-ok (require_for caps "session.auth.app_state" auth.app_state) _ u h in
    (require_for-ok caps _ auth.app_state v e, require_for-ok caps _ auth.credentials u k)

timeout-ok :
    (n : Option Number) (t : Option Duration)
    → optional duration_from_milliseconds n ≡ ok t
    → IsTimeoutOf n t
unfolding optional
timeout-ok none t h = subst (IsTimeoutOf none) (ok-injective h) tt
timeout-ok (some n) t h =
    let (d, e, k) = bind-ok (duration_from_milliseconds n) _ t h in
    subst (IsTimeoutOf (some n)) (ok-injective k) (lasts d e)
  where
    lasts :
        (d : Duration)
        → duration_from_milliseconds n ≡ ok d
        → IsPositive n × (Lasts d (whole n) ⊎ (2 ^ 53 < whole n))
    lasts d e = elim (duration_from_milliseconds_lem n) [
      | inl x ↦
          let (p, y) = x in
          let (d', f, l) = y in
          (p, subst (λ z. Lasts z (whole n) ⊎ (2 ^ 53 < whole n)) (ok-injective (sym f ∙ e)) l)
      | inr x ↦ absurd (err≢ok (sym x.1 ∙ e))
    ]

IsSignIn-ok :
    (auth : SessionAuth) (p : ProtoSessionAuth)
    → session_auth_to_proto auth ≡ ok p
    → IsSignIn auth (some p)
IsSignIn-ok auth p h = (session_auth_to_proto_iff auth p).0 h

-- A request to create a session is built only where the client has the capability for what the caller
-- signs in with and the timeout is left out or positive; it carries the sign-in, the caller's two other
-- options, or their defaults, and a duration just where there is a timeout, which lasts the timeout's
-- whole milliseconds unless they are more than 2 ^ 53.
pub create_session_request-ok :
    (caps : List String) (auth : SessionAuth) (o : CreateSessionOptions) (r : CreateSessionRequest)
    → create_session_request caps auth o ≡ ok r
    → AllowsAuth caps auth
      × IsSignIn auth r.auth
      × IsTimeoutOf o.timeout_ms r.timeout
      × (r.e2ee ≡ default false o.e2ee)
      × (r.event_buffer ≡ default 0 o.event_buffer)
unfolding create_session_request
create_session_request-ok caps auth o r h =
    let (u, a, h1) = bind-ok (require_auth_capability caps auth) _ r h in
    let (p, b, h2) = bind-ok (session_auth_to_proto auth) _ r h1 in
    let (t, c, h3) = bind-ok (optional duration_from_milliseconds o.timeout_ms) _ r h2 in
    subst
      (λ x.
        AllowsAuth caps auth
        × IsSignIn auth x.auth
        × IsTimeoutOf o.timeout_ms x.timeout
        × (x.e2ee ≡ default false o.e2ee)
        × (x.event_buffer ≡ default 0 o.event_buffer))
      (ok-injective h3)
      (
        require_auth_capability-ok caps auth u a,
        IsSignIn-ok auth p b,
        timeout-ok o.timeout_ms t c,
        refl,
        refl,
      )

-- A request to refresh a sign-in is built only where the client can refresh, and, if the caller gives a new
-- sign-in, has the capability for it; it carries that sign-in or none, and the caller's session.
pub refresh_auth_request-ok :
    (caps : List String) (id : String) (auth : Option SessionAuth) (r : RefreshAuthRequest)
    → refresh_auth_request caps id auth ≡ ok r
    → (has_capability caps "session.auth.refresh" ≡ true)
      × IsRefreshOf caps auth r.auth
      × (r.session_id ≡ id)
unfolding refresh_auth_request optional
refresh_auth_request-ok caps id none r h =
    let (u, a, h1) = bind-ok (require_capability caps "session.auth.refresh") _ r h in
    subst
      (λ x.
        (has_capability caps "session.auth.refresh" ≡ true)
        × IsRefreshOf caps none x.auth
        × (x.session_id ≡ id))
      (ok-injective h1) (require_capability-ok caps _ u a, tt, refl)
refresh_auth_request-ok caps id (some auth) r h =
    let (u, a, h1) = bind-ok (require_capability caps "session.auth.refresh") _ r h in
    let (v, b, h2) = bind-ok (require_auth_capability caps auth >>= λ x. ok (some x)) _ r h1 in
    let (x, c, h3) = bind-ok (require_auth_capability caps auth) _ v b in
    let (q, d, h4) = bind-ok (session_auth_to_proto auth >>= λ y. ok (some y)) _ r h2 in
    let (p, e, h5) = bind-ok (session_auth_to_proto auth) _ q d in
    subst
      (λ y.
        (has_capability caps "session.auth.refresh" ≡ true)
        × IsRefreshOf caps (some auth) y.auth
        × (y.session_id ≡ id))
      (ok-injective h4)
      (
        require_capability-ok caps _ u a,
        (
          require_auth_capability-ok caps auth x c,
          subst (IsSignIn auth) (ok-injective h5) (IsSignIn-ok auth p e),
        ),
        refl,
      )
