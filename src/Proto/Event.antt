-- ===== src/Proto/Event.antt =====
-- sdk/node/src/gen/: the message Event of meta/v1/events.ts and its union.
pub mod RoundTrip
pub mod Total
pub mod Refused
use meta_go.Prelude.{
  ℕ, zero, suc, ◌≡◌, refl, String, Bool, true, false, List, [], ◌∷◌, ◌++◌, inl, inr, Option, none,
  some, ℤ, pos, negsuc, All, All-All,
}
use meta_go.Proto.Time.{Date, Timestamp, to_timestamp, from_timestamp}
use meta_go.Wire.{Wire, Case, decode_embedded}
use meta_go.Wire.Objects.{Entries, assign, IsObject}
use meta_go.Wire.Encode.{
  written, tagged, put_string, put_bool, put_uint32, put_int32, put_int64, put_uint64, put_bytes,
  put_embedded, put_message, put_strings, put_messages, set_by, set_message, ForSome,
}
use meta_go.Proto.Google.{
  create_base_timestamp, encode_timestamp, timestamp_cases, Duration, create_base_duration,
  encode_duration, duration_cases, encode_date,
}
use meta_go.Proto.Common.{
  ProtocolVersion, create_base_protocol_version, encode_protocol_version, protocol_version_cases,
  BuildInfo, create_base_build_info, encode_build_info, build_info_cases, ErrorDetailDetailsEntry,
  create_base_error_detail_details_entry, encode_error_detail_details_entry,
  error_detail_details_entry_cases, ErrorDetail, create_base_error_detail, encode_error_detail,
  error_detail_cases, IsValidErrorDetail, Account, create_base_account, encode_account,
  account_cases,
}
use meta_go.Proto.Message.{
  ReplyReference, create_base_reply_reference, encode_reply_reference, reply_reference_cases,
  Mention, create_base_mention, encode_mention, mention_cases, E2eeMediaReference,
  create_base_e2ee_media_reference, encode_e2ee_media_reference, e2ee_media_reference_cases,
  Attachment, create_base_attachment, encode_attachment, attachment_cases, Message,
  create_base_message, encode_message, message_cases, MediaChunk, create_base_media_chunk,
  encode_media_chunk, media_chunk_cases,
}
use meta_go.Proto.Notice.{
  ReadyEvent, create_base_ready_event, encode_ready_event, ready_event_cases, ReconnectedEvent,
  create_base_reconnected_event, encode_reconnected_event, reconnected_event_cases,
  DisconnectedEvent, create_base_disconnected_event, encode_disconnected_event,
  disconnected_event_cases, ErrorEvent, create_base_error_event, encode_error_event,
  error_event_cases, IsValidErrorEvent, MessageEvent, create_base_message_event,
  encode_message_event, message_event_cases, ThreadUpdateEvent, create_base_thread_update_event,
  encode_thread_update_event, thread_update_event_cases, ThreadSystemEvent,
  create_base_thread_system_event, encode_thread_system_event, thread_system_event_cases,
  E2eeReadyEvent, create_base_e2ee_ready_event, encode_e2ee_ready_event, e2ee_ready_event_cases,
}
use meta_go.Proto.Activity.{
  ReactionEvent, create_base_reaction_event, encode_reaction_event, reaction_event_cases,
  TypingEvent, create_base_typing_event, encode_typing_event, typing_event_cases, ReadReceiptEvent,
  create_base_read_receipt_event, encode_read_receipt_event, read_receipt_event_cases,
  DeliveryReceiptEvent, create_base_delivery_receipt_event, encode_delivery_receipt_event,
  delivery_receipt_event_cases, MessageEditEvent, create_base_message_edit_event,
  encode_message_edit_event, message_edit_event_cases, MessageUnsendEvent,
  create_base_message_unsend_event, encode_message_unsend_event, message_unsend_event_cases,
  E2eeReceiptEvent, create_base_e2ee_receipt_event, encode_e2ee_receipt_event,
  e2ee_receipt_event_cases,
}

pub data EventPayload : Type 0 where
  ready : ReadyEvent → EventPayload
  reconnected : ReconnectedEvent → EventPayload
  disconnected : DisconnectedEvent → EventPayload
  error : ErrorEvent → EventPayload
  message : MessageEvent → EventPayload
  reaction : ReactionEvent → EventPayload
  typing : TypingEvent → EventPayload
  read_receipt : ReadReceiptEvent → EventPayload
  delivery_receipt : DeliveryReceiptEvent → EventPayload
  message_edit : MessageEditEvent → EventPayload
  message_unsend : MessageUnsendEvent → EventPayload
  thread_update : ThreadUpdateEvent → EventPayload
  e2ee_ready : E2eeReadyEvent → EventPayload
  e2ee_receipt : E2eeReceiptEvent → EventPayload
  thread_system : ThreadSystemEvent → EventPayload

pub record Event : Type 0 where
  pub session_id : String
  pub sequence : ℤ
  pub emitted_at : Option Date
  pub payload : Option EventPayload

unfoldable pub create_base_event : Event
create_base_event = record { session_id = ""; sequence = pos 0; emitted_at = none; payload = none }

module _ {Byte : Type 0} (w : Wire Byte) where
  unfoldable pub put_event_payload : Option EventPayload → Option (List Byte)
  put_event_payload none = some []
  put_event_payload (some (ready v)) = put_embedded w 82 (encode_ready_event w v)
  put_event_payload (some (reconnected v)) = put_embedded w 90 (encode_reconnected_event w v)
  put_event_payload (some (disconnected v)) = put_embedded w 98 (encode_disconnected_event w v)
  put_event_payload (some (error v)) = put_embedded w 106 (encode_error_event w v)
  put_event_payload (some (message v)) = put_embedded w 114 (encode_message_event w v)
  put_event_payload (some (reaction v)) = put_embedded w 122 (encode_reaction_event w v)
  put_event_payload (some (typing v)) = put_embedded w 130 (encode_typing_event w v)
  put_event_payload (some (read_receipt v)) = put_embedded w 138 (encode_read_receipt_event w v)
  put_event_payload (some (delivery_receipt v)) =
      put_embedded w 146 (encode_delivery_receipt_event w v)
  put_event_payload (some (message_edit v)) = put_embedded w 154 (encode_message_edit_event w v)
  put_event_payload (some (message_unsend v)) = put_embedded w 162 (encode_message_unsend_event w v)
  put_event_payload (some (thread_update v)) = put_embedded w 170 (encode_thread_update_event w v)
  put_event_payload (some (e2ee_ready v)) = put_embedded w 178 (encode_e2ee_ready_event w v)
  put_event_payload (some (e2ee_receipt v)) = put_embedded w 186 (encode_e2ee_receipt_event w v)
  put_event_payload (some (thread_system v)) = put_embedded w 194 (encode_thread_system_event w v)

  unfoldable pub encode_event : Event → Option (List Byte)
  encode_event m = written (
      put_string w 10 m.session_id
      ∷ put_uint64 w 16 m.sequence
      ∷ put_message w 26 (encode_date w) m.emitted_at
      ∷ put_event_payload m.payload
      ∷ [])

  unfoldable pub event_cases : List (Case Byte Event)
  event_cases =
      (10, set_by w.read_string (λ m v. record m { session_id = v }))
      ∷ (16, set_by w.read_uint64 (λ m v. record m { sequence = v }))
      ∷ (
        26,
        set_message (decode_embedded w (timestamp_cases w) create_base_timestamp)
            (λ m v. record m { emitted_at = some (from_timestamp v) }),
      )
      ∷ (
        82,
        set_message (decode_embedded w (ready_event_cases w) create_base_ready_event)
            (λ m v. record m { payload = some (ready v) }),
      )
      ∷ (
        90,
        set_message (decode_embedded w (reconnected_event_cases w) create_base_reconnected_event)
            (λ m v. record m { payload = some (reconnected v) }),
      )
      ∷ (
        98,
        set_message (decode_embedded w (disconnected_event_cases w) create_base_disconnected_event)
            (λ m v. record m { payload = some (disconnected v) }),
      )
      ∷ (
        106,
        set_message (decode_embedded w (error_event_cases w) create_base_error_event)
            (λ m v. record m { payload = some (error v) }),
      )
      ∷ (
        114,
        set_message (decode_embedded w (message_event_cases w) create_base_message_event)
            (λ m v. record m { payload = some (message v) }),
      )
      ∷ (
        122,
        set_message (decode_embedded w (reaction_event_cases w) create_base_reaction_event)
            (λ m v. record m { payload = some (reaction v) }),
      )
      ∷ (
        130,
        set_message (decode_embedded w (typing_event_cases w) create_base_typing_event)
            (λ m v. record m { payload = some (typing v) }),
      )
      ∷ (
        138,
        set_message (decode_embedded w (read_receipt_event_cases w) create_base_read_receipt_event)
            (λ m v. record m { payload = some (read_receipt v) }),
      )
      ∷ (
        146,
        set_message
            (decode_embedded w (delivery_receipt_event_cases w) create_base_delivery_receipt_event)
            (λ m v. record m { payload = some (delivery_receipt v) }),
      )
      ∷ (
        154,
        set_message (decode_embedded w (message_edit_event_cases w) create_base_message_edit_event)
            (λ m v. record m { payload = some (message_edit v) }),
      )
      ∷ (
        162,
        set_message
            (decode_embedded w (message_unsend_event_cases w) create_base_message_unsend_event)
            (λ m v. record m { payload = some (message_unsend v) }),
      )
      ∷ (
        170,
        set_message
            (decode_embedded w (thread_update_event_cases w) create_base_thread_update_event)
            (λ m v. record m { payload = some (thread_update v) }),
      )
      ∷ (
        178,
        set_message (decode_embedded w (e2ee_ready_event_cases w) create_base_e2ee_ready_event)
            (λ m v. record m { payload = some (e2ee_ready v) }),
      )
      ∷ (
        186,
        set_message (decode_embedded w (e2ee_receipt_event_cases w) create_base_e2ee_receipt_event)
            (λ m v. record m { payload = some (e2ee_receipt v) }),
      )
      ∷ (
        194,
        set_message
            (decode_embedded w (thread_system_event_cases w) create_base_thread_system_event)
            (λ m v. record m { payload = some (thread_system v) }),
      )
      ∷ []

abbrev pub IsValidEventPayload : EventPayload → Type 0
IsValidEventPayload (ready v) = Unit
IsValidEventPayload (reconnected v) = Unit
IsValidEventPayload (disconnected v) = Unit
IsValidEventPayload (error v) = IsValidErrorEvent v
IsValidEventPayload (message v) = Unit
IsValidEventPayload (reaction v) = Unit
IsValidEventPayload (typing v) = Unit
IsValidEventPayload (read_receipt v) = Unit
IsValidEventPayload (delivery_receipt v) = Unit
IsValidEventPayload (message_edit v) = Unit
IsValidEventPayload (message_unsend v) = Unit
IsValidEventPayload (thread_update v) = Unit
IsValidEventPayload (e2ee_ready v) = Unit
IsValidEventPayload (e2ee_receipt v) = Unit
IsValidEventPayload (thread_system v) = Unit

-- Every object in the message lists its entries as `Object.entries` does, and has no own key `__proto__`.
abbrev pub IsValidEvent : Event → Type 0
IsValidEvent m = ForSome IsValidEventPayload m.payload
