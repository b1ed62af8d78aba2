-- ===== src/Proto/Session.antt =====
-- sdk/node/src/gen/: creating, connecting and following a session, of meta/v1/session.ts.
pub mod RoundTrip
use meta_go.Prelude.{
  ℕ, zero, suc, ◌≡◌, refl, String, Bool, true, false, List, [], ◌∷◌, ◌++◌, inl, inr, Option, none,
  some, ℤ, pos, negsuc, All, All-All,
}
use meta_go.Proto.Time.{Date, Timestamp, to_timestamp, from_timestamp}
use meta_go.Wire.{Wire, Case, decode_embedded}
use meta_go.Wire.Objects.{Entries, assign, IsObject}
use meta_go.Wire.Encode.{
  written, tagged, put_string, put_bool, put_uint32, put_int32, put_int64, put_uint64, put_bytes,
  put_embedded, put_message, put_strings, put_messages, set_by, set_message, ForSome,
}
use meta_go.Proto.Google.{
  create_base_timestamp, encode_timestamp, timestamp_cases, Duration, create_base_duration,
  encode_duration, duration_cases, encode_date,
}
use meta_go.Proto.Common.{
  ProtocolVersion, create_base_protocol_version, encode_protocol_version, protocol_version_cases,
  BuildInfo, create_base_build_info, encode_build_info, build_info_cases, ErrorDetailDetailsEntry,
  create_base_error_detail_details_entry, encode_error_detail_details_entry,
  error_detail_details_entry_cases, ErrorDetail, create_base_error_detail, encode_error_detail,
  error_detail_cases, IsValidErrorDetail, Account, create_base_account, encode_account,
  account_cases,
}
use meta_go.Proto.Message.{
  ReplyReference, create_base_reply_reference, encode_reply_reference, reply_reference_cases,
  Mention, create_base_mention, encode_mention, mention_cases, E2eeMediaReference,
  create_base_e2ee_media_reference, encode_e2ee_media_reference, e2ee_media_reference_cases,
  Attachment, create_base_attachment, encode_attachment, attachment_cases, Message,
  create_base_message, encode_message, message_cases, MediaChunk, create_base_media_chunk,
  encode_media_chunk, media_chunk_cases,
}
use meta_go.Proto.Notice.{
  ReadyEvent, create_base_ready_event, encode_ready_event, ready_event_cases, ReconnectedEvent,
  create_base_reconnected_event, encode_reconnected_event, reconnected_event_cases,
  DisconnectedEvent, create_base_disconnected_event, encode_disconnected_event,
  disconnected_event_cases, ErrorEvent, create_base_error_event, encode_error_event,
  error_event_cases, IsValidErrorEvent, MessageEvent, create_base_message_event,
  encode_message_event, message_event_cases, ThreadUpdateEvent, create_base_thread_update_event,
  encode_thread_update_event, thread_update_event_cases, ThreadSystemEvent,
  create_base_thread_system_event, encode_thread_system_event, thread_system_event_cases,
  E2eeReadyEvent, create_base_e2ee_ready_event, encode_e2ee_ready_event, e2ee_ready_event_cases,
}
use meta_go.Proto.Activity.{
  ReactionEvent, create_base_reaction_event, encode_reaction_event, reaction_event_cases,
  TypingEvent, create_base_typing_event, encode_typing_event, typing_event_cases, ReadReceiptEvent,
  create_base_read_receipt_event, encode_read_receipt_event, read_receipt_event_cases,
  DeliveryReceiptEvent, create_base_delivery_receipt_event, encode_delivery_receipt_event,
  delivery_receipt_event_cases, MessageEditEvent, create_base_message_edit_event,
  encode_message_edit_event, message_edit_event_cases, MessageUnsendEvent,
  create_base_message_unsend_event, encode_message_unsend_event, message_unsend_event_cases,
  E2eeReceiptEvent, create_base_e2ee_receipt_event, encode_e2ee_receipt_event,
  e2ee_receipt_event_cases,
}
use meta_go.Proto.Event.{
  Event, create_base_event, encode_event, event_cases, IsValidEvent, EventPayload,
  put_event_payload,
}
use meta_go.Proto.Auth.{
  Credentials, create_base_credentials, encode_credentials, credentials_cases,
  CredentialsSecondFactor, put_credentials_second_factor, AppStateCookie,
  create_base_app_state_cookie, encode_app_state_cookie, app_state_cookie_cases, AppState,
  create_base_app_state, encode_app_state, app_state_cases, CookieMapValuesEntry,
  create_base_cookie_map_values_entry, encode_cookie_map_values_entry,
  cookie_map_values_entry_cases, CookieMap, create_base_cookie_map, encode_cookie_map,
  cookie_map_cases, IsValidCookieMap, SessionAuth, create_base_session_auth, encode_session_auth,
  session_auth_cases, IsValidSessionAuth, SessionAuthSource, put_session_auth_source,
}
use meta_go.Proto.Snapshot.{
  FacebookSession, create_base_facebook_session, encode_facebook_session, facebook_session_cases,
  AuthSnapshot, create_base_auth_snapshot, encode_auth_snapshot, auth_snapshot_cases,
  IsValidAuthSnapshot, RefreshAuthRequest, create_base_refresh_auth_request,
  encode_refresh_auth_request, refresh_auth_request_cases, IsValidRefreshAuthRequest,
  RefreshAuthResponse, create_base_refresh_auth_response, encode_refresh_auth_response,
  refresh_auth_response_cases, IsValidRefreshAuthResponse, GetAuthSnapshotRequest,
  create_base_get_auth_snapshot_request, encode_get_auth_snapshot_request,
  get_auth_snapshot_request_cases, GetAuthSnapshotResponse, create_base_get_auth_snapshot_response,
  encode_get_auth_snapshot_response, get_auth_snapshot_response_cases,
  IsValidGetAuthSnapshotResponse,
}

pub record CreateSessionRequestCookiesEntry : Type 0 where
  pub key : String
  pub value : String

unfoldable pub create_base_create_session_request_cookies_entry : CreateSessionRequestCookiesEntry
create_base_create_session_request_cookies_entry = record { key = ""; value = "" }

module _ {Byte : Type 0} (w : Wire Byte) where
  unfoldable pub encode_create_session_request_cookies_entry :
      CreateSessionRequestCookiesEntry → Option (List Byte)
  encode_create_session_request_cookies_entry m =
      written (put_string w 10 m.key ∷ put_string w 18 m.value ∷ [])

  unfoldable pub create_session_request_cookies_entry_cases :
      List (Case Byte CreateSessionRequestCookiesEntry)
  create_session_request_cookies_entry_cases =
      (10, set_by w.read_string (λ m v. record m { key = v }))
      ∷ (18, set_by w.read_string (λ m v. record m { value = v }))
      ∷ []

pub record CreateSessionRequest : Type 0 where
  pub cookies : Entries
  pub e2ee : Bool
  pub event_buffer : ℕ
  pub timeout : Option Duration
  pub auth : Option SessionAuth

unfoldable pub create_base_create_session_request : CreateSessionRequest
create_base_create_session_request = record {
  cookies = [];
  e2ee = false;
  event_buffer = 0;
  timeout = none;
  auth = none;
}

module _ {Byte : Type 0} (w : Wire Byte) where
  unfoldable pub encode_create_session_request : CreateSessionRequest → Option (List Byte)
  encode_create_session_request m = written (
      put_messages w 10
        (λ e. encode_create_session_request_cookies_entry w (record { key = e.0; value = e.1 }))
        m.cookies
      ∷ put_bool w 16 m.e2ee
      ∷ put_uint32 w 24 m.event_buffer
      ∷ put_message w 34 (encode_duration w) m.timeout
      ∷ put_message w 42 (encode_session_auth w) m.auth
      ∷ [])

  unfoldable pub create_session_request_cases : List (Case Byte CreateSessionRequest)
  create_session_request_cases =
      (
        10,
        set_message
            (decode_embedded w (create_session_request_cookies_entry_cases w)
              create_base_create_session_request_cookies_entry)
            (λ m v. record m { cookies = assign v.key v.value m.cookies }),
      )
      ∷ (16, set_by w.read_bool (λ m v. record m { e2ee = v }))
      ∷ (24, set_by w.read_uint32 (λ m v. record m { event_buffer = v }))
      ∷ (
        34,
        set_message (decode_embedded w (duration_cases w) create_base_duration)
            (λ m v. record m { timeout = some v }),
      )
      ∷ (
        42,
        set_message (decode_embedded w (session_auth_cases w) create_base_session_auth)
            (λ m v. record m { auth = some v }),
      )
      ∷ []

-- Every object in the message lists its entries as `Object.entries` does, and has no own key `__proto__`.
abbrev pub IsValidCreateSessionRequest : CreateSessionRequest → Type 0
IsValidCreateSessionRequest m = IsObject m.cookies × ForSome IsValidSessionAuth m.auth

pub record CreateSessionResponse : Type 0 where
  pub session_id : String

unfoldable pub create_base_create_session_response : CreateSessionResponse
create_base_create_session_response = record { session_id = "" }

module _ {Byte : Type 0} (w : Wire Byte) where
  unfoldable pub encode_create_session_response : CreateSessionResponse → Option (List Byte)
  encode_create_session_response m = written (put_string w 10 m.session_id ∷ [])

  unfoldable pub create_session_response_cases : List (Case Byte CreateSessionResponse)
  create_session_response_cases =
      (10, set_by w.read_string (λ m v. record m { session_id = v })) ∷ []

pub record ConnectRequest : Type 0 where
  pub session_id : String

unfoldable pub create_base_connect_request : ConnectRequest
create_base_connect_request = record { session_id = "" }

module _ {Byte : Type 0} (w : Wire Byte) where
  unfoldable pub encode_connect_request : ConnectRequest → Option (List Byte)
  encode_connect_request m = written (put_string w 10 m.session_id ∷ [])

  unfoldable pub connect_request_cases : List (Case Byte ConnectRequest)
  connect_request_cases = (10, set_by w.read_string (λ m v. record m { session_id = v })) ∷ []

pub record ConnectResponse : Type 0 where
  pub account : Option Account

unfoldable pub create_base_connect_response : ConnectResponse
create_base_connect_response = record { account = none }

module _ {Byte : Type 0} (w : Wire Byte) where
  unfoldable pub encode_connect_response : ConnectResponse → Option (List Byte)
  encode_connect_response m = written (put_message w 10 (encode_account w) m.account ∷ [])

  unfoldable pub connect_response_cases : List (Case Byte ConnectResponse)
  connect_response_cases =
      (
        10,
        set_message (decode_embedded w (account_cases w) create_base_account)
            (λ m v. record m { account = some v }),
      )
      ∷ []

pub record CloseSessionRequest : Type 0 where
  pub session_id : String

unfoldable pub create_base_close_session_request : CloseSessionRequest
create_base_close_session_request = record { session_id = "" }

module _ {Byte : Type 0} (w : Wire Byte) where
  unfoldable pub encode_close_session_request : CloseSessionRequest → Option (List Byte)
  encode_close_session_request m = written (put_string w 10 m.session_id ∷ [])

  unfoldable pub close_session_request_cases : List (Case Byte CloseSessionRequest)
  close_session_request_cases = (10, set_by w.read_string (λ m v. record m { session_id = v })) ∷ []

pub data CloseSessionResponse : Type 0 where
  close_session_response : CloseSessionResponse

unfoldable pub create_base_close_session_response : CloseSessionResponse
create_base_close_session_response = close_session_response

module _ {Byte : Type 0} (w : Wire Byte) where
  unfoldable pub encode_close_session_response : CloseSessionResponse → Option (List Byte)
  encode_close_session_response m = some []

  unfoldable pub close_session_response_cases : List (Case Byte CloseSessionResponse)
  close_session_response_cases = []

pub record SubscribeEventsRequest : Type 0 where
  pub session_id : String
  pub buffer : ℕ

unfoldable pub create_base_subscribe_events_request : SubscribeEventsRequest
create_base_subscribe_events_request = record { session_id = ""; buffer = 0 }

module _ {Byte : Type 0} (w : Wire Byte) where
  unfoldable pub encode_subscribe_events_request : SubscribeEventsRequest → Option (List Byte)
  encode_subscribe_events_request m =
      written (put_string w 10 m.session_id ∷ put_uint32 w 16 m.buffer ∷ [])

  unfoldable pub subscribe_events_request_cases : List (Case Byte SubscribeEventsRequest)
  subscribe_events_request_cases =
      (10, set_by w.read_string (λ m v. record m { session_id = v }))
      ∷ (16, set_by w.read_uint32 (λ m v. record m { buffer = v }))
      ∷ []

pub record SubscribeEventsResponse : Type 0 where
  pub event : Option Event

unfoldable pub create_base_subscribe_events_response : SubscribeEventsResponse
create_base_subscribe_events_response = record { event = none }

module _ {Byte : Type 0} (w : Wire Byte) where
  unfoldable pub encode_subscribe_events_response : SubscribeEventsResponse → Option (List Byte)
  encode_subscribe_events_response m = written (put_message w 10 (encode_event w) m.event ∷ [])

  unfoldable pub subscribe_events_response_cases : List (Case Byte SubscribeEventsResponse)
  subscribe_events_response_cases =
      (
        10,
        set_message (decode_embedded w (event_cases w) create_base_event)
            (λ m v. record m { event = some v }),
      )
      ∷ []

-- Every object in the message lists its entries as `Object.entries` does, and has no own key `__proto__`.
abbrev pub IsValidSubscribeEventsResponse : SubscribeEventsResponse → Type 0
IsValidSubscribeEventsResponse m = ForSome IsValidEvent m.event
