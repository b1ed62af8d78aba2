-- ===== src/Proto/Auth.antt =====
-- sdk/node/src/gen/: what a session signs in with, of meta/v1/session.ts.
pub mod RoundTrip
use meta_go.Prelude.{
  ℕ, zero, suc, ◌≡◌, refl, String, Bool, true, false, List, [], ◌∷◌, ◌++◌, inl, inr, Option, none,
  some, ℤ, pos, negsuc, All, All-All,
}
use meta_go.Proto.Time.{Date, Timestamp, to_timestamp, from_timestamp}
use meta_go.Wire.{Wire, Case, decode_embedded}
use meta_go.Wire.Objects.{Entries, assign, IsObject}
use meta_go.Wire.Encode.{
  written, tagged, put_string, put_bool, put_uint32, put_int32, put_int64, put_uint64, put_bytes,
  put_embedded, put_message, put_strings, put_messages, set_by, set_message, ForSome,
}
use meta_go.Proto.Google.{
  create_base_timestamp, encode_timestamp, timestamp_cases, Duration, create_base_duration,
  encode_duration, duration_cases, encode_date,
}
use meta_go.Proto.Common.{
  ProtocolVersion, create_base_protocol_version, encode_protocol_version, protocol_version_cases,
  BuildInfo, create_base_build_info, encode_build_info, build_info_cases, ErrorDetailDetailsEntry,
  create_base_error_detail_details_entry, encode_error_detail_details_entry,
  error_detail_details_entry_cases, ErrorDetail, create_base_error_detail, encode_error_detail,
  error_detail_cases, IsValidErrorDetail, Account, create_base_account, encode_account,
  account_cases,
}
use meta_go.Proto.Message.{
  ReplyReference, create_base_reply_reference, encode_reply_reference, reply_reference_cases,
  Mention, create_base_mention, encode_mention, mention_cases, E2eeMediaReference,
  create_base_e2ee_media_reference, encode_e2ee_media_reference, e2ee_media_reference_cases,
  Attachment, create_base_attachment, encode_attachment, attachment_cases, Message,
  create_base_message, encode_message, message_cases, MediaChunk, create_base_media_chunk,
  encode_media_chunk, media_chunk_cases,
}
use meta_go.Proto.Notice.{
  ReadyEvent, create_base_ready_event, encode_ready_event, ready_event_cases, ReconnectedEvent,
  create_base_reconnected_event, encode_reconnected_event, reconnected_event_cases,
  DisconnectedEvent, create_base_disconnected_event, encode_disconnected_event,
  disconnected_event_cases, ErrorEvent, create_base_error_event, encode_error_event,
  error_event_cases, IsValidErrorEvent, MessageEvent, create_base_message_event,
  encode_message_event, message_event_cases, ThreadUpdateEvent, create_base_thread_update_event,
  encode_thread_update_event, thread_update_event_cases, ThreadSystemEvent,
  create_base_thread_system_event, encode_thread_system_event, thread_system_event_cases,
  E2eeReadyEvent, create_base_e2ee_ready_event, encode_e2ee_ready_event, e2ee_ready_event_cases,
}
use meta_go.Proto.Activity.{
  ReactionEvent, create_base_reaction_event, encode_reaction_event, reaction_event_cases,
  TypingEvent, create_base_typing_event, encode_typing_event, typing_event_cases, ReadReceiptEvent,
  create_base_read_receipt_event, encode_read_receipt_event, read_receipt_event_cases,
  DeliveryReceiptEvent, create_base_delivery_receipt_event, encode_delivery_receipt_event,
  delivery_receipt_event_cases, MessageEditEvent, create_base_message_edit_event,
  encode_message_edit_event, message_edit_event_cases, MessageUnsendEvent,
  create_base_message_unsend_event, encode_message_unsend_event, message_unsend_event_cases,
  E2eeReceiptEvent, create_base_e2ee_receipt_event, encode_e2ee_receipt_event,
  e2ee_receipt_event_cases,
}
use meta_go.Proto.Event.{
  Event, create_base_event, encode_event, event_cases, IsValidEvent, EventPayload,
  put_event_payload,
}

pub data CredentialsSecondFactor : Type 0 where
  totp : String → CredentialsSecondFactor
  otp : String → CredentialsSecondFactor

pub record Credentials : Type 0 where
  pub identifier : String
  pub password : String
  pub second_factor : Option CredentialsSecondFactor

unfoldable pub create_base_credentials : Credentials
create_base_credentials = record { identifier = ""; password = ""; second_factor = none }

module _ {Byte : Type 0} (w : Wire Byte) where
  unfoldable pub put_credentials_second_factor : Option CredentialsSecondFactor → Option (List Byte)
  put_credentials_second_factor none = some []
  put_credentials_second_factor (some (totp v)) = tagged w 26 (w.string v)
  put_credentials_second_factor (some (otp v)) = tagged w 34 (w.string v)

  unfoldable pub encode_credentials : Credentials → Option (List Byte)
  encode_credentials m = written (
      put_string w 10 m.identifier
      ∷ put_string w 18 m.password
      ∷ put_credentials_second_factor m.second_factor
      ∷ [])

  unfoldable pub credentials_cases : List (Case Byte Credentials)
  credentials_cases =
      (10, set_by w.read_string (λ m v. record m { identifier = v }))
      ∷ (18, set_by w.read_string (λ m v. record m { password = v }))
      ∷ (26, set_by w.read_string (λ m v. record m { second_factor = some (totp v) }))
      ∷ (34, set_by w.read_string (λ m v. record m { second_factor = some (otp v) }))
      ∷ []

pub record AppStateCookie : Type 0 where
  pub key : String
  pub value : String
  pub domain : String
  pub path : String
  pub host_only : Bool
  pub secure : Bool
  pub http_only : Bool

unfoldable pub create_base_app_state_cookie : AppStateCookie
create_base_app_state_cookie = record {
  key = "";
  value = "";
  domain = "";
  path = "";
  host_only = false;
  secure = false;
  http_only = false;
}

module _ {Byte : Type 0} (w : Wire Byte) where
  unfoldable pub encode_app_state_cookie : AppStateCookie → Option (List Byte)
  encode_app_state_cookie m = written (
      put_string w 10 m.key
      ∷ put_string w 18 m.value
      ∷ put_string w 26 m.domain
      ∷ put_string w 34 m.path
      ∷ put_bool w 40 m.host_only
      ∷ put_bool w 48 m.secure
      ∷ put_bool w 56 m.http_only
      ∷ [])

  unfoldable pub app_state_cookie_cases : List (Case Byte AppStateCookie)
  app_state_cookie_cases =
      (10, set_by w.read_string (λ m v. record m { key = v }))
      ∷ (18, set_by w.read_string (λ m v. record m { value = v }))
      ∷ (26, set_by w.read_string (λ m v. record m { domain = v }))
      ∷ (34, set_by w.read_string (λ m v. record m { path = v }))
      ∷ (40, set_by w.read_bool (λ m v. record m { host_only = v }))
      ∷ (48, set_by w.read_bool (λ m v. record m { secure = v }))
      ∷ (56, set_by w.read_bool (λ m v. record m { http_only = v }))
      ∷ []

pub record AppState : Type 0 where
  pub cookies : List AppStateCookie

unfoldable pub create_base_app_state : AppState
create_base_app_state = record { cookies = [] }

module _ {Byte : Type 0} (w : Wire Byte) where
  unfoldable pub encode_app_state : AppState → Option (List Byte)
  encode_app_state m = written (put_messages w 10 (encode_app_state_cookie w) m.cookies ∷ [])

  unfoldable pub app_state_cases : List (Case Byte AppState)
  app_state_cases =
      (
        10,
        set_message (decode_embedded w (app_state_cookie_cases w) create_base_app_state_cookie)
            (λ m v. record m { cookies = m.cookies ++ (v ∷ []) }),
      )
      ∷ []

pub record CookieMapValuesEntry : Type 0 where
  pub key : String
  pub value : String

unfoldable pub create_base_cookie_map_values_entry : CookieMapValuesEntry
create_base_cookie_map_values_entry = record { key = ""; value = "" }

module _ {Byte : Type 0} (w : Wire Byte) where
  unfoldable pub encode_cookie_map_values_entry : CookieMapValuesEntry → Option (List Byte)
  encode_cookie_map_values_entry m = written (put_string w 10 m.key ∷ put_string w 18 m.value ∷ [])

  unfoldable pub cookie_map_values_entry_cases : List (Case Byte CookieMapValuesEntry)
  cookie_map_values_entry_cases =
      (10, set_by w.read_string (λ m v. record m { key = v }))
      ∷ (18, set_by w.read_string (λ m v. record m { value = v }))
      ∷ []

pub record CookieMap : Type 0 where
  pub values : Entries

unfoldable pub create_base_cookie_map : CookieMap
create_base_cookie_map = record { values = [] }

module _ {Byte : Type 0} (w : Wire Byte) where
  unfoldable pub encode_cookie_map : CookieMap → Option (List Byte)
  encode_cookie_map m = written (
      put_messages w 10 (λ e. encode_cookie_map_values_entry w (record { key = e.0; value = e.1 }))
        m.values
      ∷ [])

  unfoldable pub cookie_map_cases : List (Case Byte CookieMap)
  cookie_map_cases =
      (
        10,
        set_message
            (decode_embedded w (cookie_map_values_entry_cases w)
              create_base_cookie_map_values_entry)
            (λ m v. record m { values = assign v.key v.value m.values }),
      )
      ∷ []

-- Every object in the message lists its entries as `Object.entries` does, and has no own key `__proto__`.
abbrev pub IsValidCookieMap : CookieMap → Type 0
IsValidCookieMap m = IsObject m.values

pub data SessionAuthSource : Type 0 where
  cookies : CookieMap → SessionAuthSource
  app_state : AppState → SessionAuthSource
  credentials : Credentials → SessionAuthSource

pub record SessionAuth : Type 0 where
  pub source : Option SessionAuthSource

unfoldable pub create_base_session_auth : SessionAuth
create_base_session_auth = record { source = none }

module _ {Byte : Type 0} (w : Wire Byte) where
  unfoldable pub put_session_auth_source : Option SessionAuthSource → Option (List Byte)
  put_session_auth_source none = some []
  put_session_auth_source (some (cookies v)) = put_embedded w 10 (encode_cookie_map w v)
  put_session_auth_source (some (app_state v)) = put_embedded w 18 (encode_app_state w v)
  put_session_auth_source (some (credentials v)) = put_embedded w 26 (encode_credentials w v)

  unfoldable pub encode_session_auth : SessionAuth → Option (List Byte)
  encode_session_auth m = written (put_session_auth_source m.source ∷ [])

  unfoldable pub session_auth_cases : List (Case Byte SessionAuth)
  session_auth_cases =
      (
        10,
        set_message (decode_embedded w (cookie_map_cases w) create_base_cookie_map)
            (λ m v. record m { source = some (cookies v) }),
      )
      ∷ (
        18,
        set_message (decode_embedded w (app_state_cases w) create_base_app_state)
            (λ m v. record m { source = some (app_state v) }),
      )
      ∷ (
        26,
        set_message (decode_embedded w (credentials_cases w) create_base_credentials)
            (λ m v. record m { source = some (credentials v) }),
      )
      ∷ []

abbrev pub IsValidSessionAuthSource : SessionAuthSource → Type 0
IsValidSessionAuthSource (cookies v) = IsValidCookieMap v
IsValidSessionAuthSource (app_state v) = Unit
IsValidSessionAuthSource (credentials v) = Unit

-- Every object in the message lists its entries as `Object.entries` does, and has no own key `__proto__`.
abbrev pub IsValidSessionAuth : SessionAuth → Type 0
IsValidSessionAuth m = ForSome IsValidSessionAuthSource m.source
