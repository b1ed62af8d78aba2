-- ===== src/Proto/Common.antt =====
-- sdk/node/src/gen/: the versions, errors and accounts of meta/v1/common.ts.
pub mod RoundTrip
pub mod Total
use meta_go.Prelude.{
  ℕ, zero, suc, ◌≡◌, refl, String, Bool, true, false, List, [], ◌∷◌, ◌++◌, inl, inr, Option, none,
  some, ℤ, pos, negsuc, All, All-All,
}
use meta_go.Proto.Time.{Date, Timestamp, to_timestamp, from_timestamp}
use meta_go.Wire.{Wire, Case, decode_embedded}
use meta_go.Wire.Objects.{Entries, assign, IsObject}
use meta_go.Wire.Encode.{
  written, tagged, put_string, put_bool, put_uint32, put_int32, put_int64, put_uint64, put_bytes,
  put_embedded, put_message, put_strings, put_messages, set_by, set_message, ForSome,
}
use meta_go.Proto.Google.{
  create_base_timestamp, encode_timestamp, timestamp_cases, Duration, create_base_duration,
  encode_duration, duration_cases, encode_date,
}

pub record ProtocolVersion : Type 0 where
  pub major : ℕ
  pub minor : ℕ

unfoldable pub create_base_protocol_version : ProtocolVersion
create_base_protocol_version = record { major = 0; minor = 0 }

module _ {Byte : Type 0} (w : Wire Byte) where
  unfoldable pub encode_protocol_version : ProtocolVersion → Option (List Byte)
  encode_protocol_version m = written (put_uint32 w 8 m.major ∷ put_uint32 w 16 m.minor ∷ [])

  unfoldable pub protocol_version_cases : List (Case Byte ProtocolVersion)
  protocol_version_cases =
      (8, set_by w.read_uint32 (λ m v. record m { major = v }))
      ∷ (16, set_by w.read_uint32 (λ m v. record m { minor = v }))
      ∷ []

pub record BuildInfo : Type 0 where
  pub version : String
  pub commit : String
  pub go_version : String
  pub os : String
  pub arch : String

unfoldable pub create_base_build_info : BuildInfo
create_base_build_info = record { version = ""; commit = ""; go_version = ""; os = ""; arch = "" }

module _ {Byte : Type 0} (w : Wire Byte) where
  unfoldable pub encode_build_info : BuildInfo → Option (List Byte)
  encode_build_info m = written (
      put_string w 10 m.version
      ∷ put_string w 18 m.commit
      ∷ put_string w 26 m.go_version
      ∷ put_string w 34 m.os
      ∷ put_string w 42 m.arch
      ∷ [])

  unfoldable pub build_info_cases : List (Case Byte BuildInfo)
  build_info_cases =
      (10, set_by w.read_string (λ m v. record m { version = v }))
      ∷ (18, set_by w.read_string (λ m v. record m { commit = v }))
      ∷ (26, set_by w.read_string (λ m v. record m { go_version = v }))
      ∷ (34, set_by w.read_string (λ m v. record m { os = v }))
      ∷ (42, set_by w.read_string (λ m v. record m { arch = v }))
      ∷ []

pub record ErrorDetailDetailsEntry : Type 0 where
  pub key : String
  pub value : String

unfoldable pub create_base_error_detail_details_entry : ErrorDetailDetailsEntry
create_base_error_detail_details_entry = record { key = ""; value = "" }

module _ {Byte : Type 0} (w : Wire Byte) where
  unfoldable pub encode_error_detail_details_entry : ErrorDetailDetailsEntry → Option (List Byte)
  encode_error_detail_details_entry m =
      written (put_string w 10 m.key ∷ put_string w 18 m.value ∷ [])

  unfoldable pub error_detail_details_entry_cases : List (Case Byte ErrorDetailDetailsEntry)
  error_detail_details_entry_cases =
      (10, set_by w.read_string (λ m v. record m { key = v }))
      ∷ (18, set_by w.read_string (λ m v. record m { value = v }))
      ∷ []

pub record ErrorDetail : Type 0 where
  pub category : ℤ
  pub code : String
  pub message : String
  pub retryable : Bool
  pub details : Entries

unfoldable pub create_base_error_detail : ErrorDetail
create_base_error_detail = record {
  category = pos 0;
  code = "";
  message = "";
  retryable = false;
  details = [];
}

module _ {Byte : Type 0} (w : Wire Byte) where
  unfoldable pub encode_error_detail : ErrorDetail → Option (List Byte)
  encode_error_detail m = written (
      put_int32 w 8 m.category
      ∷ put_string w 18 m.code
      ∷ put_string w 26 m.message
      ∷ put_bool w 32 m.retryable
      ∷ put_messages w 42
          (λ e. encode_error_detail_details_entry w (record { key = e.0; value = e.1 })) m.details
      ∷ [])

  unfoldable pub error_detail_cases : List (Case Byte ErrorDetail)
  error_detail_cases =
      (8, set_by w.read_int32 (λ m v. record m { category = v }))
      ∷ (18, set_by w.read_string (λ m v. record m { code = v }))
      ∷ (26, set_by w.read_string (λ m v. record m { message = v }))
      ∷ (32, set_by w.read_bool (λ m v. record m { retryable = v }))
      ∷ (
        42,
        set_message
            (decode_embedded w (error_detail_details_entry_cases w)
              create_base_error_detail_details_entry)
            (λ m v. record m { details = assign v.key v.value m.details }),
      )
      ∷ []

-- Every object in the message lists its entries as `Object.entries` does, and has no own key `__proto__`.
abbrev pub IsValidErrorDetail : ErrorDetail → Type 0
IsValidErrorDetail m = IsObject m.details

pub record Account : Type 0 where
  pub id : String
  pub name : String
  pub username : String

unfoldable pub create_base_account : Account
create_base_account = record { id = ""; name = ""; username = "" }

module _ {Byte : Type 0} (w : Wire Byte) where
  unfoldable pub encode_account : Account → Option (List Byte)
  encode_account m =
      written (put_string w 10 m.id ∷ put_string w 18 m.name ∷ put_string w 26 m.username ∷ [])

  unfoldable pub account_cases : List (Case Byte Account)
  account_cases =
      (10, set_by w.read_string (λ m v. record m { id = v }))
      ∷ (18, set_by w.read_string (λ m v. record m { name = v }))
      ∷ (26, set_by w.read_string (λ m v. record m { username = v }))
      ∷ []
