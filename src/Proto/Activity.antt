-- ===== src/Proto/Activity.antt =====
-- sdk/node/src/gen/: the events of meta/v1/events.ts about one message or reader.
pub mod RoundTrip
pub mod Total
use meta_go.Prelude.{
  ℕ, zero, suc, ◌≡◌, refl, String, Bool, true, false, List, [], ◌∷◌, ◌++◌, inl, inr, Option, none,
  some, ℤ, pos, negsuc, All, All-All,
}
use meta_go.Proto.Time.{Date, Timestamp, to_timestamp, from_timestamp}
use meta_go.Wire.{Wire, Case, decode_embedded}
use meta_go.Wire.Objects.{Entries, assign, IsObject}
use meta_go.Wire.Encode.{
  written, tagged, put_string, put_bool, put_uint32, put_int32, put_int64, put_uint64, put_bytes,
  put_embedded, put_message, put_strings, put_messages, set_by, set_message, ForSome,
}
use meta_go.Proto.Google.{
  create_base_timestamp, encode_timestamp, timestamp_cases, Duration, create_base_duration,
  encode_duration, duration_cases, encode_date,
}
use meta_go.Proto.Common.{
  ProtocolVersion, create_base_protocol_version, encode_protocol_version, protocol_version_cases,
  BuildInfo, create_base_build_info, encode_build_info, build_info_cases, ErrorDetailDetailsEntry,
  create_base_error_detail_details_entry, encode_error_detail_details_entry,
  error_detail_details_entry_cases, ErrorDetail, create_base_error_detail, encode_error_detail,
  error_detail_cases, IsValidErrorDetail, Account, create_base_account, encode_account,
  account_cases,
}
use meta_go.Proto.Message.{
  ReplyReference, create_base_reply_reference, encode_reply_reference, reply_reference_cases,
  Mention, create_base_mention, encode_mention, mention_cases, E2eeMediaReference,
  create_base_e2ee_media_reference, encode_e2ee_media_reference, e2ee_media_reference_cases,
  Attachment, create_base_attachment, encode_attachment, attachment_cases, Message,
  create_base_message, encode_message, message_cases, MediaChunk, create_base_media_chunk,
  encode_media_chunk, media_chunk_cases,
}
use meta_go.Proto.Notice.{
  ReadyEvent, create_base_ready_event, encode_ready_event, ready_event_cases, ReconnectedEvent,
  create_base_reconnected_event, encode_reconnected_event, reconnected_event_cases,
  DisconnectedEvent, create_base_disconnected_event, encode_disconnected_event,
  disconnected_event_cases, ErrorEvent, create_base_error_event, encode_error_event,
  error_event_cases, IsValidErrorEvent, MessageEvent, create_base_message_event,
  encode_message_event, message_event_cases, ThreadUpdateEvent, create_base_thread_update_event,
  encode_thread_update_event, thread_update_event_cases, ThreadSystemEvent,
  create_base_thread_system_event, encode_thread_system_event, thread_system_event_cases,
  E2eeReadyEvent, create_base_e2ee_ready_event, encode_e2ee_ready_event, e2ee_ready_event_cases,
}

pub record ReactionEvent : Type 0 where
  pub message_id : String
  pub thread_id : String
  pub actor_id : String
  pub reaction : String

unfoldable pub create_base_reaction_event : ReactionEvent
create_base_reaction_event = record {
  message_id = "";
  thread_id = "";
  actor_id = "";
  reaction = "";
}

module _ {Byte : Type 0} (w : Wire Byte) where
  unfoldable pub encode_reaction_event : ReactionEvent → Option (List Byte)
  encode_reaction_event m = written (
      put_string w 10 m.message_id
      ∷ put_string w 18 m.thread_id
      ∷ put_string w 26 m.actor_id
      ∷ put_string w 34 m.reaction
      ∷ [])

  unfoldable pub reaction_event_cases : List (Case Byte ReactionEvent)
  reaction_event_cases =
      (10, set_by w.read_string (λ m v. record m { message_id = v }))
      ∷ (18, set_by w.read_string (λ m v. record m { thread_id = v }))
      ∷ (26, set_by w.read_string (λ m v. record m { actor_id = v }))
      ∷ (34, set_by w.read_string (λ m v. record m { reaction = v }))
      ∷ []

pub record TypingEvent : Type 0 where
  pub thread_id : String
  pub sender_id : String
  pub typing : Bool

unfoldable pub create_base_typing_event : TypingEvent
create_base_typing_event = record { thread_id = ""; sender_id = ""; typing = false }

module _ {Byte : Type 0} (w : Wire Byte) where
  unfoldable pub encode_typing_event : TypingEvent → Option (List Byte)
  encode_typing_event m =
      written
        (put_string w 10 m.thread_id ∷ put_string w 18 m.sender_id ∷ put_bool w 24 m.typing ∷ [])

  unfoldable pub typing_event_cases : List (Case Byte TypingEvent)
  typing_event_cases =
      (10, set_by w.read_string (λ m v. record m { thread_id = v }))
      ∷ (18, set_by w.read_string (λ m v. record m { sender_id = v }))
      ∷ (24, set_by w.read_bool (λ m v. record m { typing = v }))
      ∷ []

pub record ReadReceiptEvent : Type 0 where
  pub thread_id : String
  pub reader_id : String
  pub watermark : Option Date

unfoldable pub create_base_read_receipt_event : ReadReceiptEvent
create_base_read_receipt_event = record { thread_id = ""; reader_id = ""; watermark = none }

module _ {Byte : Type 0} (w : Wire Byte) where
  unfoldable pub encode_read_receipt_event : ReadReceiptEvent → Option (List Byte)
  encode_read_receipt_event m = written (
      put_string w 10 m.thread_id
      ∷ put_string w 18 m.reader_id
      ∷ put_message w 26 (encode_date w) m.watermark
      ∷ [])

  unfoldable pub read_receipt_event_cases : List (Case Byte ReadReceiptEvent)
  read_receipt_event_cases =
      (10, set_by w.read_string (λ m v. record m { thread_id = v }))
      ∷ (18, set_by w.read_string (λ m v. record m { reader_id = v }))
      ∷ (
        26,
        set_message (decode_embedded w (timestamp_cases w) create_base_timestamp)
            (λ m v. record m { watermark = some (from_timestamp v) }),
      )
      ∷ []

pub record DeliveryReceiptEvent : Type 0 where
  pub thread_id : String
  pub recipient_id : String
  pub watermark : Option Date

unfoldable pub create_base_delivery_receipt_event : DeliveryReceiptEvent
create_base_delivery_receipt_event = record { thread_id = ""; recipient_id = ""; watermark = none }

module _ {Byte : Type 0} (w : Wire Byte) where
  unfoldable pub encode_delivery_receipt_event : DeliveryReceiptEvent → Option (List Byte)
  encode_delivery_receipt_event m = written (
      put_string w 10 m.thread_id
      ∷ put_string w 18 m.recipient_id
      ∷ put_message w 26 (encode_date w) m.watermark
      ∷ [])

  unfoldable pub delivery_receipt_event_cases : List (Case Byte DeliveryReceiptEvent)
  delivery_receipt_event_cases =
      (10, set_by w.read_string (λ m v. record m { thread_id = v }))
      ∷ (18, set_by w.read_string (λ m v. record m { recipient_id = v }))
      ∷ (
        26,
        set_message (decode_embedded w (timestamp_cases w) create_base_timestamp)
            (λ m v. record m { watermark = some (from_timestamp v) }),
      )
      ∷ []

pub record MessageEditEvent : Type 0 where
  pub message_id : String
  pub text : String
  pub edit_count : ℤ

unfoldable pub create_base_message_edit_event : MessageEditEvent
create_base_message_edit_event = record { message_id = ""; text = ""; edit_count = pos 0 }

module _ {Byte : Type 0} (w : Wire Byte) where
  unfoldable pub encode_message_edit_event : MessageEditEvent → Option (List Byte)
  encode_message_edit_event m =
      written
        (put_string w 10 m.message_id ∷ put_string w 18 m.text ∷ put_int64 w 24 m.edit_count ∷ [])

  unfoldable pub message_edit_event_cases : List (Case Byte MessageEditEvent)
  message_edit_event_cases =
      (10, set_by w.read_string (λ m v. record m { message_id = v }))
      ∷ (18, set_by w.read_string (λ m v. record m { text = v }))
      ∷ (24, set_by w.read_int64 (λ m v. record m { edit_count = v }))
      ∷ []

pub record MessageUnsendEvent : Type 0 where
  pub message_id : String
  pub thread_id : String

unfoldable pub create_base_message_unsend_event : MessageUnsendEvent
create_base_message_unsend_event = record { message_id = ""; thread_id = "" }

module _ {Byte : Type 0} (w : Wire Byte) where
  unfoldable pub encode_message_unsend_event : MessageUnsendEvent → Option (List Byte)
  encode_message_unsend_event m =
      written (put_string w 10 m.message_id ∷ put_string w 18 m.thread_id ∷ [])

  unfoldable pub message_unsend_event_cases : List (Case Byte MessageUnsendEvent)
  message_unsend_event_cases =
      (10, set_by w.read_string (λ m v. record m { message_id = v }))
      ∷ (18, set_by w.read_string (λ m v. record m { thread_id = v }))
      ∷ []

pub record E2eeReceiptEvent : Type 0 where
  pub type : String
  pub chat_jid : String
  pub sender_jid : String
  pub message_ids : List String

unfoldable pub create_base_e2ee_receipt_event : E2eeReceiptEvent
create_base_e2ee_receipt_event = record {
  type = "";
  chat_jid = "";
  sender_jid = "";
  message_ids = [];
}

module _ {Byte : Type 0} (w : Wire Byte) where
  unfoldable pub encode_e2ee_receipt_event : E2eeReceiptEvent → Option (List Byte)
  encode_e2ee_receipt_event m = written (
      put_string w 10 m.type
      ∷ put_string w 18 m.chat_jid
      ∷ put_string w 26 m.sender_jid
      ∷ put_strings w 34 m.message_ids
      ∷ [])

  unfoldable pub e2ee_receipt_event_cases : List (Case Byte E2eeReceiptEvent)
  e2ee_receipt_event_cases =
      (10, set_by w.read_string (λ m v. record m { type = v }))
      ∷ (18, set_by w.read_string (λ m v. record m { chat_jid = v }))
      ∷ (26, set_by w.read_string (λ m v. record m { sender_jid = v }))
      ∷ (34, set_by w.read_string (λ m v. record m { message_ids = m.message_ids ++ (v ∷ []) }))
      ∷ []
