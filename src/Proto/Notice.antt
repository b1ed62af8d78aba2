-- ===== src/Proto/Notice.antt =====
-- sdk/node/src/gen/: the events of meta/v1/events.ts about a connection or a thread.
pub mod RoundTrip
pub mod Total
use meta_go.Prelude.{
  ℕ, zero, suc, ◌≡◌, refl, String, Bool, true, false, List, [], ◌∷◌, ◌++◌, inl, inr, Option, none,
  some, ℤ, pos, negsuc, All, All-All,
}
use meta_go.Proto.Time.{Date, Timestamp, to_timestamp, from_timestamp}
use meta_go.Wire.{Wire, Case, decode_embedded}
use meta_go.Wire.Objects.{Entries, assign, IsObject}
use meta_go.Wire.Encode.{
  written, tagged, put_string, put_bool, put_uint32, put_int32, put_int64, put_uint64, put_bytes,
  put_embedded, put_message, put_strings, put_messages, set_by, set_message, ForSome,
}
use meta_go.Proto.Google.{
  create_base_timestamp, encode_timestamp, timestamp_cases, Duration, create_base_duration,
  encode_duration, duration_cases, encode_date,
}
use meta_go.Proto.Common.{
  ProtocolVersion, create_base_protocol_version, encode_protocol_version, protocol_version_cases,
  BuildInfo, create_base_build_info, encode_build_info, build_info_cases, ErrorDetailDetailsEntry,
  create_base_error_detail_details_entry, encode_error_detail_details_entry,
  error_detail_details_entry_cases, ErrorDetail, create_base_error_detail, encode_error_detail,
  error_detail_cases, IsValidErrorDetail, Account, create_base_account, encode_account,
  account_cases,
}
use meta_go.Proto.Message.{
  ReplyReference, create_base_reply_reference, encode_reply_reference, reply_reference_cases,
  Mention, create_base_mention, encode_mention, mention_cases, E2eeMediaReference,
  create_base_e2ee_media_reference, encode_e2ee_media_reference, e2ee_media_reference_cases,
  Attachment, create_base_attachment, encode_attachment, attachment_cases, Message,
  create_base_message, encode_message, message_cases, MediaChunk, create_base_media_chunk,
  encode_media_chunk, media_chunk_cases,
}

pub record ReadyEvent : Type 0 where
  pub is_new_session : Bool

unfoldable pub create_base_ready_event : ReadyEvent
create_base_ready_event = record { is_new_session = false }

module _ {Byte : Type 0} (w : Wire Byte) where
  unfoldable pub encode_ready_event : ReadyEvent → Option (List Byte)
  encode_ready_event m = written (put_bool w 8 m.is_new_session ∷ [])

  unfoldable pub ready_event_cases : List (Case Byte ReadyEvent)
  ready_event_cases = (8, set_by w.read_bool (λ m v. record m { is_new_session = v })) ∷ []

pub data ReconnectedEvent : Type 0 where
  reconnected_event : ReconnectedEvent

unfoldable pub create_base_reconnected_event : ReconnectedEvent
create_base_reconnected_event = reconnected_event

module _ {Byte : Type 0} (w : Wire Byte) where
  unfoldable pub encode_reconnected_event : ReconnectedEvent → Option (List Byte)
  encode_reconnected_event m = some []

  unfoldable pub reconnected_event_cases : List (Case Byte ReconnectedEvent)
  reconnected_event_cases = []

pub record DisconnectedEvent : Type 0 where
  pub transport : ℤ

unfoldable pub create_base_disconnected_event : DisconnectedEvent
create_base_disconnected_event = record { transport = pos 0 }

module _ {Byte : Type 0} (w : Wire Byte) where
  unfoldable pub encode_disconnected_event : DisconnectedEvent → Option (List Byte)
  encode_disconnected_event m = written (put_int32 w 8 m.transport ∷ [])

  unfoldable pub disconnected_event_cases : List (Case Byte DisconnectedEvent)
  disconnected_event_cases = (8, set_by w.read_int32 (λ m v. record m { transport = v })) ∷ []

pub record ErrorEvent : Type 0 where
  pub error : Option ErrorDetail

unfoldable pub create_base_error_event : ErrorEvent
create_base_error_event = record { error = none }

module _ {Byte : Type 0} (w : Wire Byte) where
  unfoldable pub encode_error_event : ErrorEvent → Option (List Byte)
  encode_error_event m = written (put_message w 10 (encode_error_detail w) m.error ∷ [])

  unfoldable pub error_event_cases : List (Case Byte ErrorEvent)
  error_event_cases =
      (
        10,
        set_message (decode_embedded w (error_detail_cases w) create_base_error_detail)
            (λ m v. record m { error = some v }),
      )
      ∷ []

-- Every object in the message lists its entries as `Object.entries` does, and has no own key `__proto__`.
abbrev pub IsValidErrorEvent : ErrorEvent → Type 0
IsValidErrorEvent m = ForSome IsValidErrorDetail m.error

pub record MessageEvent : Type 0 where
  pub message : Option Message

unfoldable pub create_base_message_event : MessageEvent
create_base_message_event = record { message = none }

module _ {Byte : Type 0} (w : Wire Byte) where
  unfoldable pub encode_message_event : MessageEvent → Option (List Byte)
  encode_message_event m = written (put_message w 10 (encode_message w) m.message ∷ [])

  unfoldable pub message_event_cases : List (Case Byte MessageEvent)
  message_event_cases =
      (
        10,
        set_message (decode_embedded w (message_cases w) create_base_message)
            (λ m v. record m { message = some v }),
      )
      ∷ []

pub record ThreadUpdateEvent : Type 0 where
  pub thread_id : String
  pub field : String
  pub value : String

unfoldable pub create_base_thread_update_event : ThreadUpdateEvent
create_base_thread_update_event = record { thread_id = ""; field = ""; value = "" }

module _ {Byte : Type 0} (w : Wire Byte) where
  unfoldable pub encode_thread_update_event : ThreadUpdateEvent → Option (List Byte)
  encode_thread_update_event m =
      written (put_string w 10 m.thread_id ∷ put_string w 18 m.field ∷ put_string w 26 m.value ∷ [])

  unfoldable pub thread_update_event_cases : List (Case Byte ThreadUpdateEvent)
  thread_update_event_cases =
      (10, set_by w.read_string (λ m v. record m { thread_id = v }))
      ∷ (18, set_by w.read_string (λ m v. record m { field = v }))
      ∷ (26, set_by w.read_string (λ m v. record m { value = v }))
      ∷ []

pub record ThreadSystemEvent : Type 0 where
  pub kind : ℤ
  pub thread_id : String
  pub participant_id : String
  pub message_id : String
  pub poll_id : String
  pub nickname : String
  pub emoji : String
  pub enabled : Bool
  pub pinned : Bool
  pub is_admin : Bool

unfoldable pub create_base_thread_system_event : ThreadSystemEvent
create_base_thread_system_event = record {
  kind = pos 0;
  thread_id = "";
  participant_id = "";
  message_id = "";
  poll_id = "";
  nickname = "";
  emoji = "";
  enabled = false;
  pinned = false;
  is_admin = false;
}

module _ {Byte : Type 0} (w : Wire Byte) where
  unfoldable pub encode_thread_system_event : ThreadSystemEvent → Option (List Byte)
  encode_thread_system_event m = written (
      put_int32 w 8 m.kind
      ∷ put_string w 18 m.thread_id
      ∷ put_string w 26 m.participant_id
      ∷ put_string w 34 m.message_id
      ∷ put_string w 42 m.poll_id
      ∷ put_string w 50 m.nickname
      ∷ put_string w 58 m.emoji
      ∷ put_bool w 64 m.enabled
      ∷ put_bool w 72 m.pinned
      ∷ put_bool w 80 m.is_admin
      ∷ [])

  unfoldable pub thread_system_event_cases : List (Case Byte ThreadSystemEvent)
  thread_system_event_cases =
      (8, set_by w.read_int32 (λ m v. record m { kind = v }))
      ∷ (18, set_by w.read_string (λ m v. record m { thread_id = v }))
      ∷ (26, set_by w.read_string (λ m v. record m { participant_id = v }))
      ∷ (34, set_by w.read_string (λ m v. record m { message_id = v }))
      ∷ (42, set_by w.read_string (λ m v. record m { poll_id = v }))
      ∷ (50, set_by w.read_string (λ m v. record m { nickname = v }))
      ∷ (58, set_by w.read_string (λ m v. record m { emoji = v }))
      ∷ (64, set_by w.read_bool (λ m v. record m { enabled = v }))
      ∷ (72, set_by w.read_bool (λ m v. record m { pinned = v }))
      ∷ (80, set_by w.read_bool (λ m v. record m { is_admin = v }))
      ∷ []

pub data E2eeReadyEvent : Type 0 where
  e2ee_ready_event : E2eeReadyEvent

unfoldable pub create_base_e2ee_ready_event : E2eeReadyEvent
create_base_e2ee_ready_event = e2ee_ready_event

module _ {Byte : Type 0} (w : Wire Byte) where
  unfoldable pub encode_e2ee_ready_event : E2eeReadyEvent → Option (List Byte)
  encode_e2ee_ready_event m = some []

  unfoldable pub e2ee_ready_event_cases : List (Case Byte E2eeReadyEvent)
  e2ee_ready_event_cases = []
