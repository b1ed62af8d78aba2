-- ===== src/Client/Auth.antt =====
-- sdk/node/src/client.ts: `sessionAuthToProto` and `authSnapshotFromProto`. A caller in JavaScript may
-- leave out any member of a SessionAuth, and may give several of them.
pub mod Parts
pub mod SignIn
pub mod Reuse
use text.Mathlib.Text.{◌==◌ as str_eq}
use meta_go.Prelude.{
  String, Bool, true, false, not, ◌&&◌, ◌||◌, List, [], ◌∷◌, map, Option, none, some, ◌≡◌, refl,
  if◌then◌else◌, ℤ,
}
use meta_go.Wire.Objects.{Entries}
use meta_go.Proto.Time.{Date}
use meta_go.Proto.Auth.{
  CredentialsSecondFactor, totp, otp, SessionAuthSource, cookies, app_state, credentials, CookieMap,
  AppState, AppStateCookie as ProtoAppStateCookie, Credentials as ProtoCredentials,
  SessionAuth as ProtoSessionAuth,
}
use meta_go.Proto.Snapshot.{
  FacebookSession as ProtoFacebookSession, AuthSnapshot as ProtoAuthSnapshot,
}
use meta_go.Errors.{JsError, type_error, meta_error, Result, ok, err, ◌>>=◌, ◌>>◌}
use meta_go.Client.Text.{is_blank}

pub record Credentials : Type 0 where
  pub identifier : String
  pub password : String
  pub totp : Option String
  pub otp : Option String

pub record AppStateCookie : Type 0 where
  pub key : String
  pub value : String
  pub domain : Option String
  pub path : Option String
  pub host_only : Option Bool
  pub secure : Option Bool
  pub http_only : Option Bool

-- The TypeScript type and the README ask for exactly one of the three; the code looks at whichever are
-- given, so all of them are admitted here.
pub record SessionAuth : Type 0 where
  pub cookies : Option Entries
  pub app_state : Option (List AppStateCookie)
  pub credentials : Option Credentials

pub record FacebookSession : Type 0 where
  pub account_id : String
  pub name : String
  pub username : String
  pub dtsg : String
  pub jazoest : String
  pub lsd : String
  pub session_id : String
  pub client_revision : ℤ
  pub refreshed_at : Option Date

pub record AuthSnapshot : Type 0 where
  pub cookies : Entries
  pub app_state : List AppStateCookie
  pub session : Option FacebookSession

-- `o ?? d`.
abbrev pub default : {A : Type 0} → A → Option A → A
default d none = d
default d (some a) = a

unfoldable pub cookie_to_proto : AppStateCookie → Result ProtoAppStateCookie
cookie_to_proto c =
    if is_blank c.key || str_eq c.value ""
    then err (type_error "appState cookies require key and value")
    else ok (record {
      key = c.key;
      value = c.value;
      domain = default "" c.domain;
      path = default "" c.path;
      host_only = default false c.host_only;
      secure = default false c.secure;
      http_only = default false c.http_only;
    })

-- `appState.map(…)`, which ends at the first cookie that throws.
unfoldable pub cookies_to_proto : List AppStateCookie → Result (List ProtoAppStateCookie)
cookies_to_proto [] = ok []
cookies_to_proto (c ∷ cs) = cookie_to_proto c >>= λ p. cookies_to_proto cs >>= λ ps. ok (p ∷ ps)

unfoldable pub app_state_to_proto : List AppStateCookie → Result SessionAuthSource
app_state_to_proto [] = err (type_error "appState must contain at least one cookie")
app_state_to_proto (c ∷ cs) =
    cookies_to_proto (c ∷ cs) >>= λ ps. ok (app_state (record { cookies = ps }))

-- `typeof text === "string" && text.trim() !== ""`.
unfoldable pub has_text : Option String → Bool
has_text none = false
has_text (some s) = not (is_blank s)

abbrev pub pick_factor : Bool → Bool → (t o : Option String) → Result CredentialsSecondFactor
pick_factor true false t o = ok (totp (default "" t))
pick_factor false true t o = ok (otp (default "" o))
pick_factor _ _ t o = err (type_error "credentials require exactly one of totp or otp")

unfoldable pub second_factor : Option String → Option String → Result CredentialsSecondFactor
second_factor t o = pick_factor (has_text t) (has_text o) t o

unfoldable pub credentials_to_proto : Credentials → Result SessionAuthSource
credentials_to_proto c =
    if is_blank c.identifier
    then err (type_error "credentials.identifier is required")
    else if str_eq c.password ""
    then err (type_error "credentials.password is required")
    else second_factor c.totp c.otp >>= λ f. ok (
        credentials
          (record { identifier = c.identifier; password = c.password; second_factor = some f }))

unfoldable pub source_to_proto :
    Option Entries → Option (List AppStateCookie) → Option Credentials → Result SessionAuthSource
source_to_proto (some values) _ _ = ok (cookies (record { values = values }))
source_to_proto none (some cs) _ = app_state_to_proto cs
source_to_proto none none (some c) = credentials_to_proto c
source_to_proto none none none = err (type_error "exactly one authentication source is required")

unfoldable pub session_auth_to_proto : SessionAuth → Result ProtoSessionAuth
session_auth_to_proto auth = source_to_proto auth.cookies auth.app_state auth.credentials >>= λ s.
    ok (record { source = some s })

-- `text || undefined`.
unfoldable pub or_undefined : String → Option String
or_undefined s = if str_eq s "" then none else some s

unfoldable pub cookie_from_proto : ProtoAppStateCookie → AppStateCookie
cookie_from_proto c = record {
  key = c.key;
  value = c.value;
  domain = or_undefined c.domain;
  path = or_undefined c.path;
  host_only = some c.host_only;
  secure = some c.secure;
  http_only = some c.http_only;
}

unfoldable pub session_from_proto : ProtoFacebookSession → FacebookSession
session_from_proto s = record {
  account_id = s.account_id;
  name = s.name;
  username = s.username;
  dtsg = s.dtsg;
  jazoest = s.jazoest;
  lsd = s.lsd;
  session_id = s.session_id;
  client_revision = s.client_revision;
  refreshed_at = s.refreshed_at;
}

abbrev values_of : Option CookieMap → Entries
values_of none = []
values_of (some m) = m.values

abbrev cookies_of : Option AppState → List ProtoAppStateCookie
cookies_of none = []
cookies_of (some a) = a.cookies

abbrev map_option : {A B : Type 0} → (A → B) → Option A → Option B
map_option f none = none
map_option f (some a) = some (f a)

unfoldable pub auth_snapshot_from_proto : Option ProtoAuthSnapshot → Result AuthSnapshot
auth_snapshot_from_proto none = err (meta_error "runtime returned no authentication snapshot")
auth_snapshot_from_proto (some s) = ok (record {
  cookies = values_of s.cookies;
  app_state = map cookie_from_proto (cookies_of s.app_state);
  session = map_option session_from_proto s.session;
})
