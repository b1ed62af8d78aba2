-- ===== src/Proto/Info.antt =====
-- sdk/node/src/gen/: meta/v1/runtime.ts, meta/v1/health.ts and the health calls of session.ts.
pub mod RoundTrip
use meta_go.Prelude.{
  ℕ, zero, suc, ◌≡◌, refl, String, Bool, true, false, List, [], ◌∷◌, ◌++◌, inl, inr, Option, none,
  some, ℤ, pos, negsuc, All, All-All,
}
use meta_go.Proto.Time.{Date, Timestamp, to_timestamp, from_timestamp}
use meta_go.Wire.{Wire, Case, decode_embedded}
use meta_go.Wire.Objects.{Entries, assign, IsObject}
use meta_go.Wire.Encode.{
  written, tagged, put_string, put_bool, put_uint32, put_int32, put_int64, put_uint64, put_bytes,
  put_embedded, put_message, put_strings, put_messages, set_by, set_message, ForSome,
}
use meta_go.Proto.Google.{
  create_base_timestamp, encode_timestamp, timestamp_cases, Duration, create_base_duration,
  encode_duration, duration_cases, encode_date,
}
use meta_go.Proto.Common.{
  ProtocolVersion, create_base_protocol_version, encode_protocol_version, protocol_version_cases,
  BuildInfo, create_base_build_info, encode_build_info, build_info_cases, ErrorDetailDetailsEntry,
  create_base_error_detail_details_entry, encode_error_detail_details_entry,
  error_detail_details_entry_cases, ErrorDetail, create_base_error_detail, encode_error_detail,
  error_detail_cases, IsValidErrorDetail, Account, create_base_account, encode_account,
  account_cases,
}
use meta_go.Proto.Message.{
  ReplyReference, create_base_reply_reference, encode_reply_reference, reply_reference_cases,
  Mention, create_base_mention, encode_mention, mention_cases, E2eeMediaReference,
  create_base_e2ee_media_reference, encode_e2ee_media_reference, e2ee_media_reference_cases,
  Attachment, create_base_attachment, encode_attachment, attachment_cases, Message,
  create_base_message, encode_message, message_cases, MediaChunk, create_base_media_chunk,
  encode_media_chunk, media_chunk_cases,
}
use meta_go.Proto.Notice.{
  ReadyEvent, create_base_ready_event, encode_ready_event, ready_event_cases, ReconnectedEvent,
  create_base_reconnected_event, encode_reconnected_event, reconnected_event_cases,
  DisconnectedEvent, create_base_disconnected_event, encode_disconnected_event,
  disconnected_event_cases, ErrorEvent, create_base_error_event, encode_error_event,
  error_event_cases, IsValidErrorEvent, MessageEvent, create_base_message_event,
  encode_message_event, message_event_cases, ThreadUpdateEvent, create_base_thread_update_event,
  encode_thread_update_event, thread_update_event_cases, ThreadSystemEvent,
  create_base_thread_system_event, encode_thread_system_event, thread_system_event_cases,
  E2eeReadyEvent, create_base_e2ee_ready_event, encode_e2ee_ready_event, e2ee_ready_event_cases,
}
use meta_go.Proto.Activity.{
  ReactionEvent, create_base_reaction_event, encode_reaction_event, reaction_event_cases,
  TypingEvent, create_base_typing_event, encode_typing_event, typing_event_cases, ReadReceiptEvent,
  create_base_read_receipt_event, encode_read_receipt_event, read_receipt_event_cases,
  DeliveryReceiptEvent, create_base_delivery_receipt_event, encode_delivery_receipt_event,
  delivery_receipt_event_cases, MessageEditEvent, create_base_message_edit_event,
  encode_message_edit_event, message_edit_event_cases, MessageUnsendEvent,
  create_base_message_unsend_event, encode_message_unsend_event, message_unsend_event_cases,
  E2eeReceiptEvent, create_base_e2ee_receipt_event, encode_e2ee_receipt_event,
  e2ee_receipt_event_cases,
}
use meta_go.Proto.Event.{
  Event, create_base_event, encode_event, event_cases, IsValidEvent, EventPayload,
  put_event_payload,
}
use meta_go.Proto.Auth.{
  Credentials, create_base_credentials, encode_credentials, credentials_cases,
  CredentialsSecondFactor, put_credentials_second_factor, AppStateCookie,
  create_base_app_state_cookie, encode_app_state_cookie, app_state_cookie_cases, AppState,
  create_base_app_state, encode_app_state, app_state_cases, CookieMapValuesEntry,
  create_base_cookie_map_values_entry, encode_cookie_map_values_entry,
  cookie_map_values_entry_cases, CookieMap, create_base_cookie_map, encode_cookie_map,
  cookie_map_cases, IsValidCookieMap, SessionAuth, create_base_session_auth, encode_session_auth,
  session_auth_cases, IsValidSessionAuth, SessionAuthSource, put_session_auth_source,
}
use meta_go.Proto.Snapshot.{
  FacebookSession, create_base_facebook_session, encode_facebook_session, facebook_session_cases,
  AuthSnapshot, create_base_auth_snapshot, encode_auth_snapshot, auth_snapshot_cases,
  IsValidAuthSnapshot, RefreshAuthRequest, create_base_refresh_auth_request,
  encode_refresh_auth_request, refresh_auth_request_cases, IsValidRefreshAuthRequest,
  RefreshAuthResponse, create_base_refresh_auth_response, encode_refresh_auth_response,
  refresh_auth_response_cases, IsValidRefreshAuthResponse, GetAuthSnapshotRequest,
  create_base_get_auth_snapshot_request, encode_get_auth_snapshot_request,
  get_auth_snapshot_request_cases, GetAuthSnapshotResponse, create_base_get_auth_snapshot_response,
  encode_get_auth_snapshot_response, get_auth_snapshot_response_cases,
  IsValidGetAuthSnapshotResponse,
}
use meta_go.Proto.Session.{
  CreateSessionRequestCookiesEntry, create_base_create_session_request_cookies_entry,
  encode_create_session_request_cookies_entry, create_session_request_cookies_entry_cases,
  CreateSessionRequest, create_base_create_session_request, encode_create_session_request,
  create_session_request_cases, IsValidCreateSessionRequest, CreateSessionResponse,
  create_base_create_session_response, encode_create_session_response,
  create_session_response_cases, ConnectRequest, create_base_connect_request,
  encode_connect_request, connect_request_cases, ConnectResponse, create_base_connect_response,
  encode_connect_response, connect_response_cases, CloseSessionRequest,
  create_base_close_session_request, encode_close_session_request, close_session_request_cases,
  CloseSessionResponse, create_base_close_session_response, encode_close_session_response,
  close_session_response_cases, SubscribeEventsRequest, create_base_subscribe_events_request,
  encode_subscribe_events_request, subscribe_events_request_cases, SubscribeEventsResponse,
  create_base_subscribe_events_response, encode_subscribe_events_response,
  subscribe_events_response_cases, IsValidSubscribeEventsResponse,
}

pub data GetInfoRequest : Type 0 where
  get_info_request : GetInfoRequest

unfoldable pub create_base_get_info_request : GetInfoRequest
create_base_get_info_request = get_info_request

module _ {Byte : Type 0} (w : Wire Byte) where
  unfoldable pub encode_get_info_request : GetInfoRequest → Option (List Byte)
  encode_get_info_request m = some []

  unfoldable pub get_info_request_cases : List (Case Byte GetInfoRequest)
  get_info_request_cases = []

pub record GetInfoResponse : Type 0 where
  pub protocol : Option ProtocolVersion
  pub build : Option BuildInfo
  pub capabilities : List String

unfoldable pub create_base_get_info_response : GetInfoResponse
create_base_get_info_response = record { protocol = none; build = none; capabilities = [] }

module _ {Byte : Type 0} (w : Wire Byte) where
  unfoldable pub encode_get_info_response : GetInfoResponse → Option (List Byte)
  encode_get_info_response m = written (
      put_message w 10 (encode_protocol_version w) m.protocol
      ∷ put_message w 18 (encode_build_info w) m.build
      ∷ put_strings w 26 m.capabilities
      ∷ [])

  unfoldable pub get_info_response_cases : List (Case Byte GetInfoResponse)
  get_info_response_cases =
      (
        10,
        set_message (decode_embedded w (protocol_version_cases w) create_base_protocol_version)
            (λ m v. record m { protocol = some v }),
      )
      ∷ (
        18,
        set_message (decode_embedded w (build_info_cases w) create_base_build_info)
            (λ m v. record m { build = some v }),
      )
      ∷ (26, set_by w.read_string (λ m v. record m { capabilities = m.capabilities ++ (v ∷ []) }))
      ∷ []

pub record HealthSnapshot : Type 0 where
  pub regular : ℤ
  pub e2ee : ℤ
  pub reconnect_count : ℤ
  pub engine_dropped_event_count : ℤ
  pub subscriber_dropped_event_count : ℤ
  pub last_successful_send : Option Date
  pub last_receive : Option Date
  pub last_error_category : String

unfoldable pub create_base_health_snapshot : HealthSnapshot
create_base_health_snapshot = record {
  regular = pos 0;
  e2ee = pos 0;
  reconnect_count = pos 0;
  engine_dropped_event_count = pos 0;
  subscriber_dropped_event_count = pos 0;
  last_successful_send = none;
  last_receive = none;
  last_error_category = "";
}

module _ {Byte : Type 0} (w : Wire Byte) where
  unfoldable pub encode_health_snapshot : HealthSnapshot → Option (List Byte)
  encode_health_snapshot m = written (
      put_int32 w 8 m.regular
      ∷ put_int32 w 16 m.e2ee
      ∷ put_uint64 w 24 m.reconnect_count
      ∷ put_uint64 w 32 m.engine_dropped_event_count
      ∷ put_uint64 w 40 m.subscriber_dropped_event_count
      ∷ put_message w 50 (encode_date w) m.last_successful_send
      ∷ put_message w 58 (encode_date w) m.last_receive
      ∷ put_string w 66 m.last_error_category
      ∷ [])

  unfoldable pub health_snapshot_cases : List (Case Byte HealthSnapshot)
  health_snapshot_cases =
      (8, set_by w.read_int32 (λ m v. record m { regular = v }))
      ∷ (16, set_by w.read_int32 (λ m v. record m { e2ee = v }))
      ∷ (24, set_by w.read_uint64 (λ m v. record m { reconnect_count = v }))
      ∷ (32, set_by w.read_uint64 (λ m v. record m { engine_dropped_event_count = v }))
      ∷ (40, set_by w.read_uint64 (λ m v. record m { subscriber_dropped_event_count = v }))
      ∷ (
        50,
        set_message (decode_embedded w (timestamp_cases w) create_base_timestamp)
            (λ m v. record m { last_successful_send = some (from_timestamp v) }),
      )
      ∷ (
        58,
        set_message (decode_embedded w (timestamp_cases w) create_base_timestamp)
            (λ m v. record m { last_receive = some (from_timestamp v) }),
      )
      ∷ (66, set_by w.read_string (λ m v. record m { last_error_category = v }))
      ∷ []

pub record GetHealthRequest : Type 0 where
  pub session_id : String

unfoldable pub create_base_get_health_request : GetHealthRequest
create_base_get_health_request = record { session_id = "" }

module _ {Byte : Type 0} (w : Wire Byte) where
  unfoldable pub encode_get_health_request : GetHealthRequest → Option (List Byte)
  encode_get_health_request m = written (put_string w 10 m.session_id ∷ [])

  unfoldable pub get_health_request_cases : List (Case Byte GetHealthRequest)
  get_health_request_cases = (10, set_by w.read_string (λ m v. record m { session_id = v })) ∷ []

pub record GetHealthResponse : Type 0 where
  pub health : Option HealthSnapshot

unfoldable pub create_base_get_health_response : GetHealthResponse
create_base_get_health_response = record { health = none }

module _ {Byte : Type 0} (w : Wire Byte) where
  unfoldable pub encode_get_health_response : GetHealthResponse → Option (List Byte)
  encode_get_health_response m = written (put_message w 10 (encode_health_snapshot w) m.health ∷ [])

  unfoldable pub get_health_response_cases : List (Case Byte GetHealthResponse)
  get_health_response_cases =
      (
        10,
        set_message (decode_embedded w (health_snapshot_cases w) create_base_health_snapshot)
            (λ m v. record m { health = some v }),
      )
      ∷ []
