-- ===== src/Proto/Snapshot.antt =====
-- sdk/node/src/gen/: the snapshot of a session, of meta/v1/session.ts.
pub mod RoundTrip
use meta_go.Prelude.{
  ℕ, zero, suc, ◌≡◌, refl, String, Bool, true, false, List, [], ◌∷◌, ◌++◌, inl, inr, Option, none,
  some, ℤ, pos, negsuc, All, All-All,
}
use meta_go.Proto.Time.{Date, Timestamp, to_timestamp, from_timestamp}
use meta_go.Wire.{Wire, Case, decode_embedded}
use meta_go.Wire.Objects.{Entries, assign, IsObject}
use meta_go.Wire.Encode.{
  written, tagged, put_string, put_bool, put_uint32, put_int32, put_int64, put_uint64, put_bytes,
  put_embedded, put_message, put_strings, put_messages, set_by, set_message, ForSome,
}
use meta_go.Proto.Google.{
  create_base_timestamp, encode_timestamp, timestamp_cases, Duration, create_base_duration,
  encode_duration, duration_cases, encode_date,
}
use meta_go.Proto.Common.{
  ProtocolVersion, create_base_protocol_version, encode_protocol_version, protocol_version_cases,
  BuildInfo, create_base_build_info, encode_build_info, build_info_cases, ErrorDetailDetailsEntry,
  create_base_error_detail_details_entry, encode_error_detail_details_entry,
  error_detail_details_entry_cases, ErrorDetail, create_base_error_detail, encode_error_detail,
  error_detail_cases, IsValidErrorDetail, Account, create_base_account, encode_account,
  account_cases,
}
use meta_go.Proto.Message.{
  ReplyReference, create_base_reply_reference, encode_reply_reference, reply_reference_cases,
  Mention, create_base_mention, encode_mention, mention_cases, E2eeMediaReference,
  create_base_e2ee_media_reference, encode_e2ee_media_reference, e2ee_media_reference_cases,
  Attachment, create_base_attachment, encode_attachment, attachment_cases, Message,
  create_base_message, encode_message, message_cases, MediaChunk, create_base_media_chunk,
  encode_media_chunk, media_chunk_cases,
}
use meta_go.Proto.Notice.{
  ReadyEvent, create_base_ready_event, encode_ready_event, ready_event_cases, ReconnectedEvent,
  create_base_reconnected_event, encode_reconnected_event, reconnected_event_cases,
  DisconnectedEvent, create_base_disconnected_event, encode_disconnected_event,
  disconnected_event_cases, ErrorEvent, create_base_error_event, encode_error_event,
  error_event_cases, IsValidErrorEvent, MessageEvent, create_base_message_event,
  encode_message_event, message_event_cases, ThreadUpdateEvent, create_base_thread_update_event,
  encode_thread_update_event, thread_update_event_cases, ThreadSystemEvent,
  create_base_thread_system_event, encode_thread_system_event, thread_system_event_cases,
  E2eeReadyEvent, create_base_e2ee_ready_event, encode_e2ee_ready_event, e2ee_ready_event_cases,
}
use meta_go.Proto.Activity.{
  ReactionEvent, create_base_reaction_event, encode_reaction_event, reaction_event_cases,
  TypingEvent, create_base_typing_event, encode_typing_event, typing_event_cases, ReadReceiptEvent,
  create_base_read_receipt_event, encode_read_receipt_event, read_receipt_event_cases,
  DeliveryReceiptEvent, create_base_delivery_receipt_event, encode_delivery_receipt_event,
  delivery_receipt_event_cases, MessageEditEvent, create_base_message_edit_event,
  encode_message_edit_event, message_edit_event_cases, MessageUnsendEvent,
  create_base_message_unsend_event, encode_message_unsend_event, message_unsend_event_cases,
  E2eeReceiptEvent, create_base_e2ee_receipt_event, encode_e2ee_receipt_event,
  e2ee_receipt_event_cases,
}
use meta_go.Proto.Event.{
  Event, create_base_event, encode_event, event_cases, IsValidEvent, EventPayload,
  put_event_payload,
}
use meta_go.Proto.Auth.{
  Credentials, create_base_credentials, encode_credentials, credentials_cases,
  CredentialsSecondFactor, put_credentials_second_factor, AppStateCookie,
  create_base_app_state_cookie, encode_app_state_cookie, app_state_cookie_cases, AppState,
  create_base_app_state, encode_app_state, app_state_cases, CookieMapValuesEntry,
  create_base_cookie_map_values_entry, encode_cookie_map_values_entry,
  cookie_map_values_entry_cases, CookieMap, create_base_cookie_map, encode_cookie_map,
  cookie_map_cases, IsValidCookieMap, SessionAuth, create_base_session_auth, encode_session_auth,
  session_auth_cases, IsValidSessionAuth, SessionAuthSource, put_session_auth_source,
}

pub record FacebookSession : Type 0 where
  pub account_id : String
  pub name : String
  pub username : String
  pub dtsg : String
  pub jazoest : String
  pub lsd : String
  pub session_id : String
  pub client_revision : ℤ
  pub refreshed_at : Option Date

unfoldable pub create_base_facebook_session : FacebookSession
create_base_facebook_session = record {
  account_id = "";
  name = "";
  username = "";
  dtsg = "";
  jazoest = "";
  lsd = "";
  session_id = "";
  client_revision = pos 0;
  refreshed_at = none;
}

module _ {Byte : Type 0} (w : Wire Byte) where
  unfoldable pub encode_facebook_session : FacebookSession → Option (List Byte)
  encode_facebook_session m = written (
      put_string w 10 m.account_id
      ∷ put_string w 18 m.name
      ∷ put_string w 26 m.username
      ∷ put_string w 34 m.dtsg
      ∷ put_string w 42 m.jazoest
      ∷ put_string w 50 m.lsd
      ∷ put_string w 58 m.session_id
      ∷ put_int64 w 64 m.client_revision
      ∷ put_message w 74 (encode_date w) m.refreshed_at
      ∷ [])

  unfoldable pub facebook_session_cases : List (Case Byte FacebookSession)
  facebook_session_cases =
      (10, set_by w.read_string (λ m v. record m { account_id = v }))
      ∷ (18, set_by w.read_string (λ m v. record m { name = v }))
      ∷ (26, set_by w.read_string (λ m v. record m { username = v }))
      ∷ (34, set_by w.read_string (λ m v. record m { dtsg = v }))
      ∷ (42, set_by w.read_string (λ m v. record m { jazoest = v }))
      ∷ (50, set_by w.read_string (λ m v. record m { lsd = v }))
      ∷ (58, set_by w.read_string (λ m v. record m { session_id = v }))
      ∷ (64, set_by w.read_int64 (λ m v. record m { client_revision = v }))
      ∷ (
        74,
        set_message (decode_embedded w (timestamp_cases w) create_base_timestamp)
            (λ m v. record m { refreshed_at = some (from_timestamp v) }),
      )
      ∷ []

pub record AuthSnapshot : Type 0 where
  pub cookies : Option CookieMap
  pub app_state : Option AppState
  pub session : Option FacebookSession

unfoldable pub create_base_auth_snapshot : AuthSnapshot
create_base_auth_snapshot = record { cookies = none; app_state = none; session = none }

module _ {Byte : Type 0} (w : Wire Byte) where
  unfoldable pub encode_auth_snapshot : AuthSnapshot → Option (List Byte)
  encode_auth_snapshot m = written (
      put_message w 10 (encode_cookie_map w) m.cookies
      ∷ put_message w 18 (encode_app_state w) m.app_state
      ∷ put_message w 26 (encode_facebook_session w) m.session
      ∷ [])

  unfoldable pub auth_snapshot_cases : List (Case Byte AuthSnapshot)
  auth_snapshot_cases =
      (
        10,
        set_message (decode_embedded w (cookie_map_cases w) create_base_cookie_map)
            (λ m v. record m { cookies = some v }),
      )
      ∷ (
        18,
        set_message (decode_embedded w (app_state_cases w) create_base_app_state)
            (λ m v. record m { app_state = some v }),
      )
      ∷ (
        26,
        set_message (decode_embedded w (facebook_session_cases w) create_base_facebook_session)
            (λ m v. record m { session = some v }),
      )
      ∷ []

-- Every object in the message lists its entries as `Object.entries` does, and has no own key `__proto__`.
abbrev pub IsValidAuthSnapshot : AuthSnapshot → Type 0
IsValidAuthSnapshot m = ForSome IsValidCookieMap m.cookies

pub record RefreshAuthRequest : Type 0 where
  pub session_id : String
  pub auth : Option SessionAuth

unfoldable pub create_base_refresh_auth_request : RefreshAuthRequest
create_base_refresh_auth_request = record { session_id = ""; auth = none }

module _ {Byte : Type 0} (w : Wire Byte) where
  unfoldable pub encode_refresh_auth_request : RefreshAuthRequest → Option (List Byte)
  encode_refresh_auth_request m =
      written (put_string w 10 m.session_id ∷ put_message w 18 (encode_session_auth w) m.auth ∷ [])

  unfoldable pub refresh_auth_request_cases : List (Case Byte RefreshAuthRequest)
  refresh_auth_request_cases =
      (10, set_by w.read_string (λ m v. record m { session_id = v }))
      ∷ (
        18,
        set_message (decode_embedded w (session_auth_cases w) create_base_session_auth)
            (λ m v. record m { auth = some v }),
      )
      ∷ []

-- Every object in the message lists its entries as `Object.entries` does, and has no own key `__proto__`.
abbrev pub IsValidRefreshAuthRequest : RefreshAuthRequest → Type 0
IsValidRefreshAuthRequest m = ForSome IsValidSessionAuth m.auth

pub record RefreshAuthResponse : Type 0 where
  pub snapshot : Option AuthSnapshot

unfoldable pub create_base_refresh_auth_response : RefreshAuthResponse
create_base_refresh_auth_response = record { snapshot = none }

module _ {Byte : Type 0} (w : Wire Byte) where
  unfoldable pub encode_refresh_auth_response : RefreshAuthResponse → Option (List Byte)
  encode_refresh_auth_response m =
      written (put_message w 10 (encode_auth_snapshot w) m.snapshot ∷ [])

  unfoldable pub refresh_auth_response_cases : List (Case Byte RefreshAuthResponse)
  refresh_auth_response_cases =
      (
        10,
        set_message (decode_embedded w (auth_snapshot_cases w) create_base_auth_snapshot)
            (λ m v. record m { snapshot = some v }),
      )
      ∷ []

-- Every object in the message lists its entries as `Object.entries` does, and has no own key `__proto__`.
abbrev pub IsValidRefreshAuthResponse : RefreshAuthResponse → Type 0
IsValidRefreshAuthResponse m = ForSome IsValidAuthSnapshot m.snapshot

pub record GetAuthSnapshotRequest : Type 0 where
  pub session_id : String

unfoldable pub create_base_get_auth_snapshot_request : GetAuthSnapshotRequest
create_base_get_auth_snapshot_request = record { session_id = "" }

module _ {Byte : Type 0} (w : Wire Byte) where
  unfoldable pub encode_get_auth_snapshot_request : GetAuthSnapshotRequest → Option (List Byte)
  encode_get_auth_snapshot_request m = written (put_string w 10 m.session_id ∷ [])

  unfoldable pub get_auth_snapshot_request_cases : List (Case Byte GetAuthSnapshotRequest)
  get_auth_snapshot_request_cases =
      (10, set_by w.read_string (λ m v. record m { session_id = v })) ∷ []

pub record GetAuthSnapshotResponse : Type 0 where
  pub snapshot : Option AuthSnapshot

unfoldable pub create_base_get_auth_snapshot_response : GetAuthSnapshotResponse
create_base_get_auth_snapshot_response = record { snapshot = none }

module _ {Byte : Type 0} (w : Wire Byte) where
  unfoldable pub encode_get_auth_snapshot_response : GetAuthSnapshotResponse → Option (List Byte)
  encode_get_auth_snapshot_response m =
      written (put_message w 10 (encode_auth_snapshot w) m.snapshot ∷ [])

  unfoldable pub get_auth_snapshot_response_cases : List (Case Byte GetAuthSnapshotResponse)
  get_auth_snapshot_response_cases =
      (
        10,
        set_message (decode_embedded w (auth_snapshot_cases w) create_base_auth_snapshot)
            (λ m v. record m { snapshot = some v }),
      )
      ∷ []

-- Every object in the message lists its entries as `Object.entries` does, and has no own key `__proto__`.
abbrev pub IsValidGetAuthSnapshotResponse : GetAuthSnapshotResponse → Type 0
IsValidGetAuthSnapshotResponse m = ForSome IsValidAuthSnapshot m.snapshot
