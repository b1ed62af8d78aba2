-- ===== src/Client/Calls.antt =====
-- sdk/node/src/client.ts: the calls of class MetaClient that build a message and check capabilities. The
-- services behind the calls run in another process, and are a parameter. `capabilities` is the Set that
-- `create` fills from the runtime's answer.
pub mod Requests
pub mod Failures
use text.Mathlib.Text.{◌==◌ as str_eq}
use meta_go.Prelude.{
  ℕ, String, Bool, true, false, ◌||◌, List, [], ◌∷◌, Option, none, some, ◌≡◌, refl, if◌then◌else◌,
}
use meta_go.Proto.Google.{Duration}
use meta_go.Proto.Auth.{SessionAuth as ProtoSessionAuth}
use meta_go.Proto.Snapshot.{
  RefreshAuthRequest, RefreshAuthResponse, GetAuthSnapshotRequest, GetAuthSnapshotResponse,
}
use meta_go.Proto.Session.{
  CreateSessionRequest, CreateSessionResponse, ConnectRequest, ConnectResponse, CloseSessionRequest,
  CloseSessionResponse,
}
use meta_go.Proto.Info.{GetHealthRequest, GetHealthResponse}
use meta_go.Errors.{
  JsError, unsupported_capability_error, Result, ok, err, ◌>>=◌, ◌>>◌, error_middleware,
}
use meta_go.Client.Timeout.{Number, duration_from_milliseconds}
use meta_go.Client.Auth.{
  SessionAuth, AuthSnapshot, default, session_auth_to_proto, auth_snapshot_from_proto,
}

pub record CreateSessionOptions : Type 0 where
  pub e2ee : Option Bool
  pub event_buffer : Option ℕ
  pub timeout_ms : Option Number

-- What the session service of the runtime answers.
pub record SessionService : Type 0 where
  pub create_session : CreateSessionRequest → Result CreateSessionResponse
  pub refresh_auth : RefreshAuthRequest → Result RefreshAuthResponse
  pub get_auth_snapshot : GetAuthSnapshotRequest → Result GetAuthSnapshotResponse
  pub connect : ConnectRequest → Result ConnectResponse
  pub get_health : GetHealthRequest → Result GetHealthResponse
  pub close_session : CloseSessionRequest → Result CloseSessionResponse

unfoldable pub has_capability : List String → String → Bool
has_capability [] c = false
has_capability (d ∷ ds) c = str_eq d c || has_capability ds c

unfoldable pub require_capability : List String → String → Result (Unit {0})
require_capability caps c =
    if has_capability caps c then ok tt else err (unsupported_capability_error c)

-- `if (member !== undefined) this.requireCapability(c)`.
unfoldable pub require_for : {A : Type 0} → List String → String → Option A → Result (Unit {0})
require_for caps c none = ok tt
require_for caps c (some a) = require_capability caps c

unfoldable pub require_auth_capability : List String → SessionAuth → Result (Unit {0})
require_auth_capability caps auth =
    require_for caps "session.auth.app_state" auth.app_state
    >> require_for caps "session.auth.credentials" auth.credentials

-- `o === undefined ? undefined : f(o)`.
unfoldable pub optional : {A B : Type 0} → (A → Result B) → Option A → Result (Option B)
optional f none = ok none
optional f (some a) = f a >>= λ b. ok (some b)

unfoldable pub create_session_request :
    List String → SessionAuth → CreateSessionOptions → Result CreateSessionRequest
create_session_request caps auth o =
    require_auth_capability caps auth
    >> (session_auth_to_proto auth >>= λ p.
        optional duration_from_milliseconds o.timeout_ms >>= λ t. ok (record {
          cookies = [];
          e2ee = default false o.e2ee;
          event_buffer = default 0 o.event_buffer;
          timeout = t;
          auth = some p;
        }))

unfoldable pub refresh_auth_request :
    List String → String → Option SessionAuth → Result RefreshAuthRequest
refresh_auth_request caps id auth =
    require_capability caps "session.auth.refresh"
    >> (optional (require_auth_capability caps) auth >>= λ u.
        optional session_auth_to_proto auth >>= λ p. ok (record { session_id = id; auth = p }))

module _ (service : SessionService) where
  unfoldable pub create_session :
      List String → SessionAuth → CreateSessionOptions → Result CreateSessionResponse
  create_session caps auth o =
      create_session_request caps auth o >>= λ r. error_middleware (service.create_session r)

  unfoldable pub refresh_auth : List String → String → Option SessionAuth → Result AuthSnapshot
  refresh_auth caps id auth = refresh_auth_request caps id auth >>= λ r.
      error_middleware (service.refresh_auth r) >>= λ a. auth_snapshot_from_proto a.snapshot

  unfoldable pub auth_snapshot : List String → String → Result AuthSnapshot
  auth_snapshot caps id =
      require_capability caps "session.auth.refresh"
      >> (error_middleware (service.get_auth_snapshot (record { session_id = id })) >>= λ a.
          auth_snapshot_from_proto a.snapshot)

  unfoldable pub connect_session : String → Result ConnectResponse
  connect_session id = error_middleware (service.connect (record { session_id = id }))

  unfoldable pub get_session_health : String → Result GetHealthResponse
  get_session_health id = error_middleware (service.get_health (record { session_id = id }))

  unfoldable pub close_session : String → Result (Unit {0})
  close_session id =
      error_middleware (service.close_session (record { session_id = id })) >>= λ r. ok tt
