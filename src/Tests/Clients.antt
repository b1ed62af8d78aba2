-- ===== src/Tests/Clients.antt =====
-- Sign-ins, timeouts, calls and lives of a client.
use meta_go.Prelude.{
  ℕ, ◌≡◌, ◌<◌, ◌^◌, ◌+◌, ◌/◌, ◌⊎◌, ◌↔◌, refl, true, false, String, List, [], ◌∷◌, none, some, All,
  pos, negsuc,
}
use meta_go.Errors.{
  client_error, meta_rpc_error, range_error, Result, ok, err, map_rpc_error, error_middleware,
  error_middleware_lem, IsClientError, ◌>>=◌,
}
use meta_go.Proto.Info.{GetInfoResponse}
use meta_go.Proto.Google.{Duration}
use meta_go.Proto.Time.{
  time, invalid, Timestamp, to_timestamp, from_timestamp, from_timestamp-to_timestamp,
}
use meta_go.Proto.Auth.{
  SessionAuthSource, app_state, credentials, totp, SessionAuth as ProtoSessionAuth,
  AppStateCookie as ProtoAppStateCookie,
}
use meta_go.Proto.Snapshot.{AuthSnapshot as ProtoAuthSnapshot, RefreshAuthRequest}
use meta_go.Proto.Session.{CreateSessionRequest}
use meta_go.Client.Text.{is_blank, is_space}
use meta_go.Client.Timeout.{
  Number, finite, IsPositive, Lasts, whole, grow, coarsen, half_even, truncated_quotient,
  duration_from_milliseconds, duration_from_milliseconds_lem,
}
use meta_go.Client.Auth.{
  SessionAuth, default, session_auth_to_proto, source_to_proto, credentials_to_proto, second_factor,
  has_text, auth_snapshot_from_proto,
}
use meta_go.Client.Auth.SignIn.{IsSourceOf, session_auth_to_proto_iff}
use meta_go.Client.Auth.Reuse.{again, again-snapshot}
use meta_go.Client.Calls.{
  CreateSessionOptions, SessionService, has_capability, require_capability, require_for,
  require_auth_capability, optional, create_session_request, refresh_auth_request, create_session,
  refresh_auth, auth_snapshot, connect_session, get_session_health, close_session,
}
use meta_go.Client.Calls.Requests.{
  AllowsAuth, IsSignIn, IsTimeoutOf, IsRefreshOf, create_session_request-ok,
  refresh_auth_request-ok,
}
use meta_go.Client.Calls.Failures.{HidesTransport, calls-HidesTransport}
use meta_go.Client.Lifecycle.{
  ClientAction, opens, acts, new_client, close_client, client_run, client_step, create, events,
}
use meta_go.Client.Lifecycle.Creation.{IsCreated, create-IsCreated}
use meta_go.Client.Lifecycle.Streams.{IsMember, new_client-run-IsMember, client_run-closes}
use meta_go.Stream.Actions.{receives, closes_stream}
use meta_go.Tests.Inputs.{typing_event}
use meta_go.Tests.Streams.{overflow, truthy, throws}

abbrev gone : Result ℕ
gone = err (client_error "/meta.v1/Connect" 14 "down")

error_middleware_lem_example :
    (¬ IsClientError (meta_rpc_error "/meta.v1/Connect" 14 "down"))
    × (error_middleware (error_middleware gone) ≡ err (meta_rpc_error "/meta.v1/Connect" 14 "down"))
unfolding error_middleware map_rpc_error
error_middleware_lem_example =
    error_middleware_lem gone (meta_rpc_error "/meta.v1/Connect" 14 "down") refl

-- One and a half milliseconds before the epoch's second minute.
from_timestamp-to_timestamp_example :
    ((t : Timestamp) × (to_timestamp (time (negsuc 61500) refl) ≡ some t)
      × (from_timestamp t ≡ time (negsuc 61500) refl))
    ⊎ ((time (negsuc 61500) refl ≡ invalid) × (to_timestamp (time (negsuc 61500) refl) ≡ none))
from_timestamp-to_timestamp_example = from_timestamp-to_timestamp (time (negsuc 61500) refl)

-- 2500.5 milliseconds.
abbrev timeout : Number
timeout = finite false 5001 1

duration_from_milliseconds_lem_example :
    (IsPositive timeout
      × ((d : Duration) × (duration_from_milliseconds timeout ≡ ok d)
          × (Lasts d (whole timeout) ⊎ (2 ^ 53 < whole timeout))))
    ⊎ ((¬ IsPositive timeout)
        × (duration_from_milliseconds timeout ≡ err (range_error "timeoutMs must be positive")))
duration_from_milliseconds_lem_example = duration_from_milliseconds_lem timeout

-- Above 2 ^ 53 milliseconds the seconds may be one too many.
rounded_up : truncated_quotient (2 ^ 60) ≡ 2 ^ 60 / 1000 + 1
unfolding truncated_quotient grow coarsen half_even
rounded_up = refl

abbrev sign_in : SessionAuth
sign_in = record {
  cookies = none;
  app_state = none;
  credentials =
      some (record { identifier = "me"; password = "secret"; totp = some "JBSW"; otp = some " " });
}

abbrev message : ProtoSessionAuth
message = record {
  source = some (
      credentials
        (record { identifier = "me"; password = "secret"; second_factor = some (totp "JBSW") }));
}

session_auth_to_proto_iff_example : (session_auth_to_proto sign_in ≡ ok message) ↔ (
    (m : SessionAuthSource) × (message.source ≡ some m)
    × IsSourceOf sign_in.cookies sign_in.app_state sign_in.credentials m)
session_auth_to_proto_iff_example = session_auth_to_proto_iff sign_in message

abbrev cookie : ProtoAppStateCookie
cookie = record {
  key = "xs";
  value = "2";
  domain = ".facebook.com";
  path = "";
  host_only = false;
  secure = true;
  http_only = true;
}

abbrev snapshot : ProtoAuthSnapshot
snapshot = record {
  cookies = none;
  app_state = some (record { cookies = cookie ∷ [] });
  session = none;
}

again-snapshot_example :
    (auth_snapshot_from_proto (some snapshot) >>= λ v. session_auth_to_proto (again v))
    ≡ ok (record { source = some (app_state (record { cookies = cookie ∷ [] })) })
unfolding is_blank is_space
again-snapshot_example = again-snapshot snapshot cookie [] refl ((refl, refl), tt)

abbrev capabilities : List String
capabilities = "session.auth.refresh" ∷ "session.auth.credentials" ∷ []

abbrev options : CreateSessionOptions
options = record { e2ee = some true; event_buffer = none; timeout_ms = some timeout }

abbrev request : CreateSessionRequest
request = record {
  cookies = [];
  e2ee = true;
  event_buffer = 0;
  timeout = some (record { seconds = pos 2; nanos = pos 500000000 });
  auth = some message;
}

create_session_request-ok_example :
    AllowsAuth capabilities sign_in
    × IsSignIn sign_in request.auth
    × IsTimeoutOf options.timeout_ms request.timeout
    × (request.e2ee ≡ default false options.e2ee)
    × (request.event_buffer ≡ default 0 options.event_buffer)
unfolding create_session_request require_auth_capability require_for require_capability
    has_capability session_auth_to_proto source_to_proto credentials_to_proto second_factor has_text
    is_blank is_space optional duration_from_milliseconds truncated_quotient grow coarsen half_even
create_session_request-ok_example =
    create_session_request-ok capabilities sign_in options request refl

abbrev refresh : RefreshAuthRequest
refresh = record { session_id = "s"; auth = some message }

refresh_auth_request-ok_example :
    (has_capability capabilities "session.auth.refresh" ≡ true)
    × IsRefreshOf capabilities (some sign_in) refresh.auth
    × (refresh.session_id ≡ "s")
unfolding refresh_auth_request require_auth_capability require_for require_capability has_capability
    session_auth_to_proto source_to_proto credentials_to_proto second_factor has_text is_blank
    is_space optional
refresh_auth_request-ok_example =
    refresh_auth_request-ok capabilities "s" (some sign_in) refresh refl

-- A runtime that has gone away.
abbrev service : SessionService
service = record {
  create_session = λ r. err (client_error "/meta.v1.SessionService/CreateSession" 14 "unavailable");
  refresh_auth = λ r. ok (record { snapshot = none });
  get_auth_snapshot = λ r. ok (record { snapshot = some snapshot });
  connect = λ r. err (client_error "/meta.v1.SessionService/Connect" 14 "unavailable");
  get_health = λ r. err (client_error "/meta.v1.SessionService/GetHealth" 14 "unavailable");
  close_session =
      λ r. err (client_error "/meta.v1.SessionService/CloseSession" 5 "unknown session");
}

calls-HidesTransport_example :
    HidesTransport (create_session service capabilities sign_in options)
    × HidesTransport (refresh_auth service capabilities "s" none)
    × HidesTransport (auth_snapshot service capabilities "s")
    × HidesTransport (connect_session service "s")
    × HidesTransport (get_session_health service "s")
    × HidesTransport (close_session service "s")
calls-HidesTransport_example = calls-HidesTransport service capabilities "s" sign_in none options

abbrev life : List (ClientAction ℕ)
life =
    opens "s" (record { buffer = none; iterator_buffer = some 8 })
    ∷ opens "t" (record { buffer = some 4; iterator_buffer = none })
    ∷ acts 0 (receives (some typing_event))
    ∷ acts 0 closes_stream
    ∷ []

new_client-run-IsMember_example :
    All IsMember (client_run overflow truthy throws life (new_client true)).members
new_client-run-IsMember_example = new_client-run-IsMember overflow truthy throws life true

client_run-closes_example :
    All
      (λ m. (m.stream.closed ≡ true) × (m.registered ≡ false))
      (close_client (client_run overflow truthy throws life (new_client true))).0.members
unfolding client_run client_step events new_client
client_run-closes_example = client_run-closes overflow truthy throws life true refl

-- A runtime of another protocol.
abbrev answer : Result GetInfoResponse
answer = ok (record {
  protocol = some (record { major = 2; minor = 0 });
  build = none;
  capabilities = capabilities;
})

create-IsCreated_example : IsCreated 1 true answer (create {E = ℕ} 1 true answer)
create-IsCreated_example = create-IsCreated ℕ 1 true answer
