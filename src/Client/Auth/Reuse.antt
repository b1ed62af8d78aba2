-- ===== src/Client/Auth/Reuse.antt =====
-- sdk/node/src/client.ts: a snapshot of a session, used to sign in again.
use text.Mathlib.Text.{◌==◌ as str_eq}
use text.Mathlib.TextEquality.{eq_iff}
use meta_go.Prelude.{
  String, false, List, [], ◌∷◌, map, none, some, ◌≡◌, refl, sym, Bool-cases, inl, inr, All,
}
use meta_go.Proto.Auth.{app_state, AppStateCookie as ProtoAppStateCookie}
use meta_go.Proto.Snapshot.{AuthSnapshot as ProtoAuthSnapshot}
use meta_go.Errors.{ok, ◌>>=◌}
use meta_go.Client.Text.{is_blank}
use meta_go.Client.Auth.{
  SessionAuth, AuthSnapshot, default, or_undefined, cookie_from_proto, cookie_to_proto,
  cookies_to_proto, app_state_to_proto, source_to_proto, session_auth_to_proto,
  auth_snapshot_from_proto,
}

abbrev pub IsUsable : ProtoAppStateCookie → Type 0
IsUsable c = (is_blank c.key ≡ false) × (str_eq c.value "" ≡ false)

default-or_undefined : (s : String) → default "" (or_undefined s) ≡ s
unfolding or_undefined
default-or_undefined s = elim (Bool-cases (str_eq s "")) [
  | inl h ↦ rw h (sym ((eq_iff s "").0 h))
  | inr h ↦ rw h refl
]

cookie_back : (c : ProtoAppStateCookie) → IsUsable c → cookie_to_proto (cookie_from_proto c) ≡ ok c
unfolding cookie_to_proto cookie_from_proto
cookie_back c (k, v) = rw (k, v, default-or_undefined c.domain, default-or_undefined c.path) refl

cookies_back :
    (cs : List ProtoAppStateCookie)
    → All IsUsable cs
    → cookies_to_proto (map cookie_from_proto cs) ≡ ok cs
unfolding cookies_to_proto
cookies_back [] h = refl
cookies_back (c ∷ cs) (h, hs) = rw (cookie_back c h, cookies_back cs hs) refl

-- The sign-in that gives back a snapshot's app state.
abbrev pub again : AuthSnapshot → SessionAuth
again s = record { cookies = none; app_state = some s.app_state; credentials = none }

-- The app state of a snapshot that has a cookie, each with a key and a value, becomes the same app
-- state again in the message of a sign-in with it.
pub again-snapshot :
    (s : ProtoAuthSnapshot) (c : ProtoAppStateCookie) (cs : List ProtoAppStateCookie)
    → s.app_state ≡ some (record { cookies = c ∷ cs })
    → All IsUsable (c ∷ cs)
    → (auth_snapshot_from_proto (some s) >>= λ v. session_auth_to_proto (again v))
      ≡ ok (record { source = some (app_state (record { cookies = c ∷ cs })) })
unfolding auth_snapshot_from_proto session_auth_to_proto source_to_proto app_state_to_proto
again-snapshot s c cs e h = rw (e, cookies_back (c ∷ cs) h) refl
