-- ===== src/Client/Calls/Failures.antt =====
-- sdk/node/src/client.ts and errors.ts: the errors of the client's calls.
use text.Mathlib.Text.{◌==◌ as str_eq}
use meta_go.Client.Text.{is_blank}
use meta_go.Prelude.{
  [], ◌∷◌, Bool, true, false, String, List, Option, none, some, Bool-cases, inl, inr, if◌then◌else◌,
}
use meta_go.Wire.Objects.{Entries}
use meta_go.Proto.Snapshot.{AuthSnapshot as ProtoAuthSnapshot}
use meta_go.Errors.{
  JsError, Result, ok, err, ◌>>=◌, error_middleware, IsClientError, not-IsClientError,
}
use meta_go.Client.Timeout.{Number, nan, infinity, finite, duration_from_milliseconds}
use meta_go.Client.Auth.{
  SessionAuth, AppStateCookie, Credentials, cookie_to_proto, cookies_to_proto, app_state_to_proto,
  second_factor, pick_factor, has_text, credentials_to_proto, source_to_proto,
  session_auth_to_proto, auth_snapshot_from_proto,
}
use meta_go.Client.Calls.{
  SessionService, has_capability, CreateSessionOptions, require_capability, require_for,
  require_auth_capability, optional, create_session_request, refresh_auth_request, create_session,
  refresh_auth, auth_snapshot, connect_session, get_session_health, close_session,
}

-- The call returns, or throws an error that is no ClientError of the transport.
abbrev pub HidesTransport {ℓ} : {A : Type ℓ} → Result A → Type 0
HidesTransport (ok a) = Unit
HidesTransport (err e) = ¬ IsClientError e

middleware-hides {ℓ} : {A : Type ℓ} (r : Result A) → HidesTransport (error_middleware r)
unfolding error_middleware
middleware-hides (ok a) = tt
middleware-hides (err e) = not-IsClientError e

bind-hides {ℓ κ} :
    {A : Type ℓ} {B : Type κ} (m : Result A) (f : A → Result B)
    → HidesTransport m
    → ((a : A) → HidesTransport (f a))
    → HidesTransport (m >>= f)
bind-hides (ok a) f h k = k a
bind-hides (err e) f h k = h

guard-hides {ℓ} :
    {A : Type ℓ} (b : Bool) (e : JsError) (r : Result A)
    → ¬ IsClientError e
    → HidesTransport r
    → HidesTransport (if b then err e else r)
guard-hides true e r h k = h
guard-hides false e r h k = k

optional-hides :
    {A B : Type 0} (f : A → Result B) (o : Option A)
    → ((a : A) → HidesTransport (f a))
    → HidesTransport (optional f o)
unfolding optional
optional-hides f none h = tt
optional-hides f (some a) h = bind-hides (f a) _ (h a) (λ b. tt)

cookies-hide : (cs : List AppStateCookie) → HidesTransport (cookies_to_proto cs)
unfolding cookies_to_proto cookie_to_proto
cookies-hide [] = tt
cookies-hide (c ∷ cs) =
    bind-hides (cookie_to_proto c) _ (guard-hides _ _ (ok _) (λ h. h) tt)
      (λ p. bind-hides (cookies_to_proto cs) _ (cookies-hide cs) (λ ps. tt))

factor-hides : (a b : Bool) (t o : Option String) → HidesTransport (pick_factor a b t o)
factor-hides true true t o = λ h. h
factor-hides true false t o = tt
factor-hides false true t o = tt
factor-hides false false t o = λ h. h

source-hides :
    (es : Option Entries) (cs : Option (List AppStateCookie)) (c : Option Credentials)
    → HidesTransport (source_to_proto es cs c)
unfolding source_to_proto app_state_to_proto credentials_to_proto second_factor
source-hides (some es) cs c = tt
source-hides none (some []) c = λ h. h
source-hides none (some (x ∷ xs)) c =
    bind-hides (cookies_to_proto (x ∷ xs)) _ (cookies-hide (x ∷ xs)) (λ ps. tt)
source-hides none none (some c) = elim (Bool-cases (is_blank c.identifier)) [
  | inl h ↦ rw h (λ x. x)
  | inr h ↦ elim (Bool-cases (str_eq c.password "")) [
    | inl k ↦ rw (h, k) (λ x. x)
    | inr k ↦
        rw (h, k)
          (bind-hides (second_factor c.totp c.otp) _
            (factor-hides (has_text c.totp) (has_text c.otp) c.totp c.otp) (λ f. tt))
  ]
]
source-hides none none none = λ h. h

auth-hides : (auth : SessionAuth) → HidesTransport (session_auth_to_proto auth)
unfolding session_auth_to_proto
auth-hides auth =
    bind-hides (source_to_proto auth.cookies auth.app_state auth.credentials) _ (source-hides _ _ _)
      (λ s. tt)

timeout-hides : (n : Number) → HidesTransport (duration_from_milliseconds n)
unfolding duration_from_milliseconds
timeout-hides nan = λ h. h
timeout-hides (infinity b) = λ h. h
timeout-hides (finite b m k) = guard-hides _ _ (ok _) (λ h. h) tt

snapshot-hides : (s : Option ProtoAuthSnapshot) → HidesTransport (auth_snapshot_from_proto s)
unfolding auth_snapshot_from_proto
snapshot-hides none = λ h. h
snapshot-hides (some s) = tt

capability-hides : (caps : List String) (c : String) → HidesTransport (require_capability caps c)
unfolding require_capability
capability-hides caps c = elim (Bool-cases (has_capability caps c)) [
  | inl h ↦ rw h tt
  | inr h ↦ rw h (λ x. x)
]

member-hides :
    {A : Type 0} (caps : List String) (c : String) (o : Option A)
    → HidesTransport (require_for caps c o)
unfolding require_for
member-hides caps c none = tt
member-hides caps c (some a) = capability-hides caps c

capabilities-hide :
    (caps : List String) (auth : SessionAuth) → HidesTransport (require_auth_capability caps auth)
unfolding require_auth_capability
capabilities-hide caps auth =
    bind-hides (require_for caps "session.auth.app_state" auth.app_state) _
      (member-hides caps _ auth.app_state) (λ u. member-hides caps _ auth.credentials)

create-hides :
    (caps : List String) (auth : SessionAuth) (o : CreateSessionOptions)
    → HidesTransport (create_session_request caps auth o)
unfolding create_session_request
create-hides caps auth o =
    bind-hides (require_auth_capability caps auth) _ (capabilities-hide caps auth) (λ u.
      bind-hides (session_auth_to_proto auth) _ (auth-hides auth) (λ p.
        bind-hides (optional duration_from_milliseconds o.timeout_ms) _
          (optional-hides _ o.timeout_ms timeout-hides) (λ t. tt)))

refresh-hides :
    (caps : List String) (id : String) (auth : Option SessionAuth)
    → HidesTransport (refresh_auth_request caps id auth)
unfolding refresh_auth_request
refresh-hides caps id auth =
    bind-hides (require_capability caps "session.auth.refresh") _ (capability-hides caps _) (λ u.
      bind-hides (optional (require_auth_capability caps) auth) _
        (optional-hides _ auth (capabilities-hide caps))
        (λ v.
          bind-hides (optional session_auth_to_proto auth) _ (optional-hides _ auth auth-hides)
            (λ p. tt)))

-- Whatever the runtime answers, none of the client's six calls for sessions throws a ClientError.
pub calls-HidesTransport :
    (service : SessionService) (caps : List String) (id : String) (auth : SessionAuth)
    (again : Option SessionAuth) (o : CreateSessionOptions)
    → HidesTransport (create_session service caps auth o)
      × HidesTransport (refresh_auth service caps id again)
      × HidesTransport (auth_snapshot service caps id)
      × HidesTransport (connect_session service id)
      × HidesTransport (get_session_health service id)
      × HidesTransport (close_session service id)
unfolding create_session refresh_auth auth_snapshot connect_session get_session_health close_session
calls-HidesTransport service caps id auth again o = (
  bind-hides (create_session_request caps auth o) _ (create-hides caps auth o)
      (λ r. middleware-hides (service.create_session r)),
  bind-hides (refresh_auth_request caps id again) _ (refresh-hides caps id again) (λ r.
      bind-hides (error_middleware (service.refresh_auth r)) _
        (middleware-hides (service.refresh_auth r)) (λ a. snapshot-hides a.snapshot)),
  bind-hides (require_capability caps "session.auth.refresh") _ (capability-hides caps _) (λ u.
      bind-hides (error_middleware (service.get_auth_snapshot (record { session_id = id }))) _
        (middleware-hides (service.get_auth_snapshot _)) (λ a. snapshot-hides a.snapshot)),
  middleware-hides (service.connect _),
  middleware-hides (service.get_health _),
  bind-hides (error_middleware (service.close_session (record { session_id = id }))) _
      (middleware-hides (service.close_session _)) (λ r. tt),
)
