-- ===== src/Proto/Message.antt =====
-- sdk/node/src/gen/: the messages of a thread, of meta/v1/common.ts.
pub mod RoundTrip
pub mod Total
use meta_go.Prelude.{
  ℕ, zero, suc, ◌≡◌, refl, String, Bool, true, false, List, [], ◌∷◌, ◌++◌, inl, inr, Option, none,
  some, ℤ, pos, negsuc, All, All-All,
}
use meta_go.Proto.Time.{Date, Timestamp, to_timestamp, from_timestamp}
use meta_go.Wire.{Wire, Case, decode_embedded}
use meta_go.Wire.Objects.{Entries, assign, IsObject}
use meta_go.Wire.Encode.{
  written, tagged, put_string, put_bool, put_uint32, put_int32, put_int64, put_uint64, put_bytes,
  put_embedded, put_message, put_strings, put_messages, set_by, set_message, ForSome,
}
use meta_go.Proto.Google.{
  create_base_timestamp, encode_timestamp, timestamp_cases, Duration, create_base_duration,
  encode_duration, duration_cases, encode_date,
}
use meta_go.Proto.Common.{
  ProtocolVersion, create_base_protocol_version, encode_protocol_version, protocol_version_cases,
  BuildInfo, create_base_build_info, encode_build_info, build_info_cases, ErrorDetailDetailsEntry,
  create_base_error_detail_details_entry, encode_error_detail_details_entry,
  error_detail_details_entry_cases, ErrorDetail, create_base_error_detail, encode_error_detail,
  error_detail_cases, IsValidErrorDetail, Account, create_base_account, encode_account,
  account_cases,
}

pub record ReplyReference : Type 0 where
  pub message_id : String
  pub sender_id : String

unfoldable pub create_base_reply_reference : ReplyReference
create_base_reply_reference = record { message_id = ""; sender_id = "" }

module _ {Byte : Type 0} (w : Wire Byte) where
  unfoldable pub encode_reply_reference : ReplyReference → Option (List Byte)
  encode_reply_reference m =
      written (put_string w 10 m.message_id ∷ put_string w 18 m.sender_id ∷ [])

  unfoldable pub reply_reference_cases : List (Case Byte ReplyReference)
  reply_reference_cases =
      (10, set_by w.read_string (λ m v. record m { message_id = v }))
      ∷ (18, set_by w.read_string (λ m v. record m { sender_id = v }))
      ∷ []

pub record Mention : Type 0 where
  pub user_id : String
  pub offset : ℤ
  pub length : ℤ

unfoldable pub create_base_mention : Mention
create_base_mention = record { user_id = ""; offset = pos 0; length = pos 0 }

module _ {Byte : Type 0} (w : Wire Byte) where
  unfoldable pub encode_mention : Mention → Option (List Byte)
  encode_mention m =
      written (put_string w 10 m.user_id ∷ put_int32 w 16 m.offset ∷ put_int32 w 24 m.length ∷ [])

  unfoldable pub mention_cases : List (Case Byte Mention)
  mention_cases =
      (10, set_by w.read_string (λ m v. record m { user_id = v }))
      ∷ (16, set_by w.read_int32 (λ m v. record m { offset = v }))
      ∷ (24, set_by w.read_int32 (λ m v. record m { length = v }))
      ∷ []

pub record E2eeMediaReference : Type 0 where
  pub kind : String
  pub direct_path : String
  pub media_key : List ℕ
  pub file_sha256 : List ℕ
  pub file_enc_sha256 : List ℕ
  pub content_type : String
  pub size : ℤ

unfoldable pub create_base_e2ee_media_reference : E2eeMediaReference
create_base_e2ee_media_reference = record {
  kind = "";
  direct_path = "";
  media_key = [];
  file_sha256 = [];
  file_enc_sha256 = [];
  content_type = "";
  size = pos 0;
}

module _ {Byte : Type 0} (w : Wire Byte) where
  unfoldable pub encode_e2ee_media_reference : E2eeMediaReference → Option (List Byte)
  encode_e2ee_media_reference m = written (
      put_string w 10 m.kind
      ∷ put_string w 18 m.direct_path
      ∷ put_bytes w 26 m.media_key
      ∷ put_bytes w 34 m.file_sha256
      ∷ put_bytes w 42 m.file_enc_sha256
      ∷ put_string w 50 m.content_type
      ∷ put_int64 w 56 m.size
      ∷ [])

  unfoldable pub e2ee_media_reference_cases : List (Case Byte E2eeMediaReference)
  e2ee_media_reference_cases =
      (10, set_by w.read_string (λ m v. record m { kind = v }))
      ∷ (18, set_by w.read_string (λ m v. record m { direct_path = v }))
      ∷ (26, set_by w.read_bytes (λ m v. record m { media_key = v }))
      ∷ (34, set_by w.read_bytes (λ m v. record m { file_sha256 = v }))
      ∷ (42, set_by w.read_bytes (λ m v. record m { file_enc_sha256 = v }))
      ∷ (50, set_by w.read_string (λ m v. record m { content_type = v }))
      ∷ (56, set_by w.read_int64 (λ m v. record m { size = v }))
      ∷ []

pub record Attachment : Type 0 where
  pub id : String
  pub type : String
  pub url : String
  pub preview_url : String
  pub file_name : String
  pub content_type : String
  pub size : ℤ
  pub width : ℤ
  pub height : ℤ
  pub duration : ℤ
  pub e2ee : Option E2eeMediaReference

unfoldable pub create_base_attachment : Attachment
create_base_attachment = record {
  id = "";
  type = "";
  url = "";
  preview_url = "";
  file_name = "";
  content_type = "";
  size = pos 0;
  width = pos 0;
  height = pos 0;
  duration = pos 0;
  e2ee = none;
}

module _ {Byte : Type 0} (w : Wire Byte) where
  unfoldable pub encode_attachment : Attachment → Option (List Byte)
  encode_attachment m = written (
      put_string w 10 m.id
      ∷ put_string w 18 m.type
      ∷ put_string w 26 m.url
      ∷ put_string w 34 m.preview_url
      ∷ put_string w 42 m.file_name
      ∷ put_string w 50 m.content_type
      ∷ put_int64 w 56 m.size
      ∷ put_int32 w 64 m.width
      ∷ put_int32 w 72 m.height
      ∷ put_int32 w 80 m.duration
      ∷ put_message w 90 (encode_e2ee_media_reference w) m.e2ee
      ∷ [])

  unfoldable pub attachment_cases : List (Case Byte Attachment)
  attachment_cases =
      (10, set_by w.read_string (λ m v. record m { id = v }))
      ∷ (18, set_by w.read_string (λ m v. record m { type = v }))
      ∷ (26, set_by w.read_string (λ m v. record m { url = v }))
      ∷ (34, set_by w.read_string (λ m v. record m { preview_url = v }))
      ∷ (42, set_by w.read_string (λ m v. record m { file_name = v }))
      ∷ (50, set_by w.read_string (λ m v. record m { content_type = v }))
      ∷ (56, set_by w.read_int64 (λ m v. record m { size = v }))
      ∷ (64, set_by w.read_int32 (λ m v. record m { width = v }))
      ∷ (72, set_by w.read_int32 (λ m v. record m { height = v }))
      ∷ (80, set_by w.read_int32 (λ m v. record m { duration = v }))
      ∷ (
        90,
        set_message
            (decode_embedded w (e2ee_media_reference_cases w) create_base_e2ee_media_reference)
            (λ m v. record m { e2ee = some v }),
      )
      ∷ []

pub record Message : Type 0 where
  pub id : String
  pub thread_id : String
  pub sender_id : String
  pub text : String
  pub timestamp : Option Date
  pub reply_to : Option ReplyReference
  pub mentions : List Mention
  pub attachments : List Attachment
  pub encryption : ℤ
  pub transport : ℤ

unfoldable pub create_base_message : Message
create_base_message = record {
  id = "";
  thread_id = "";
  sender_id = "";
  text = "";
  timestamp = none;
  reply_to = none;
  mentions = [];
  attachments = [];
  encryption = pos 0;
  transport = pos 0;
}

module _ {Byte : Type 0} (w : Wire Byte) where
  unfoldable pub encode_message : Message → Option (List Byte)
  encode_message m = written (
      put_string w 10 m.id
      ∷ put_string w 18 m.thread_id
      ∷ put_string w 26 m.sender_id
      ∷ put_string w 34 m.text
      ∷ put_message w 42 (encode_date w) m.timestamp
      ∷ put_message w 50 (encode_reply_reference w) m.reply_to
      ∷ put_messages w 58 (encode_mention w) m.mentions
      ∷ put_messages w 66 (encode_attachment w) m.attachments
      ∷ put_int32 w 72 m.encryption
      ∷ put_int32 w 80 m.transport
      ∷ [])

  unfoldable pub message_cases : List (Case Byte Message)
  message_cases =
      (10, set_by w.read_string (λ m v. record m { id = v }))
      ∷ (18, set_by w.read_string (λ m v. record m { thread_id = v }))
      ∷ (26, set_by w.read_string (λ m v. record m { sender_id = v }))
      ∷ (34, set_by w.read_string (λ m v. record m { text = v }))
      ∷ (
        42,
        set_message (decode_embedded w (timestamp_cases w) create_base_timestamp)
            (λ m v. record m { timestamp = some (from_timestamp v) }),
      )
      ∷ (
        50,
        set_message (decode_embedded w (reply_reference_cases w) create_base_reply_reference)
            (λ m v. record m { reply_to = some v }),
      )
      ∷ (
        58,
        set_message (decode_embedded w (mention_cases w) create_base_mention)
            (λ m v. record m { mentions = m.mentions ++ (v ∷ []) }),
      )
      ∷ (
        66,
        set_message (decode_embedded w (attachment_cases w) create_base_attachment)
            (λ m v. record m { attachments = m.attachments ++ (v ∷ []) }),
      )
      ∷ (72, set_by w.read_int32 (λ m v. record m { encryption = v }))
      ∷ (80, set_by w.read_int32 (λ m v. record m { transport = v }))
      ∷ []

pub record MediaChunk : Type 0 where
  pub payload_bytes : List ℕ

unfoldable pub create_base_media_chunk : MediaChunk
create_base_media_chunk = record { payload_bytes = [] }

module _ {Byte : Type 0} (w : Wire Byte) where
  unfoldable pub encode_media_chunk : MediaChunk → Option (List Byte)
  encode_media_chunk m = written (put_bytes w 10 m.payload_bytes ∷ [])

  unfoldable pub media_chunk_cases : List (Case Byte MediaChunk)
  media_chunk_cases = (10, set_by w.read_bytes (λ m v. record m { payload_bytes = v })) ∷ []
