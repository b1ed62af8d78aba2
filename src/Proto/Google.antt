-- ===== src/Proto/Google.antt =====
-- sdk/node/src/gen/: google/protobuf/timestamp.ts and duration.ts.
pub mod RoundTrip
pub mod Total
use meta_go.Prelude.{
  ℕ, zero, suc, ◌≡◌, refl, String, Bool, true, false, List, [], ◌∷◌, ◌++◌, inl, inr, Option, none,
  some, ℤ, pos, negsuc, All, All-All,
}
use meta_go.Proto.Time.{Date, Timestamp, to_timestamp, from_timestamp}
use meta_go.Wire.{Wire, Case, decode_embedded}
use meta_go.Wire.Objects.{Entries, assign, IsObject}
use meta_go.Wire.Encode.{
  written, tagged, put_string, put_bool, put_uint32, put_int32, put_int64, put_uint64, put_bytes,
  put_embedded, put_message, put_strings, put_messages, set_by, set_message, ForSome,
}

unfoldable pub create_base_timestamp : Timestamp
create_base_timestamp = record { seconds = pos 0; nanos = pos 0 }

module _ {Byte : Type 0} (w : Wire Byte) where
  unfoldable pub encode_timestamp : Timestamp → Option (List Byte)
  encode_timestamp m = written (put_int64 w 8 m.seconds ∷ put_int32 w 16 m.nanos ∷ [])

  unfoldable pub timestamp_cases : List (Case Byte Timestamp)
  timestamp_cases =
      (8, set_by w.read_int64 (λ m v. record m { seconds = v }))
      ∷ (16, set_by w.read_int32 (λ m v. record m { nanos = v }))
      ∷ []

  -- `Timestamp.encode(toTimestamp(date), …)`.
  unfoldable pub encode_date : Date → Option (List Byte)
  encode_date d = elim (to_timestamp d) [ none ↦ none | some t ↦ encode_timestamp t ]

pub record Duration : Type 0 where
  pub seconds : ℤ
  pub nanos : ℤ

unfoldable pub create_base_duration : Duration
create_base_duration = record { seconds = pos 0; nanos = pos 0 }

module _ {Byte : Type 0} (w : Wire Byte) where
  unfoldable pub encode_duration : Duration → Option (List Byte)
  encode_duration m = written (put_int64 w 8 m.seconds ∷ put_int32 w 16 m.nanos ∷ [])

  unfoldable pub duration_cases : List (Case Byte Duration)
  duration_cases =
      (8, set_by w.read_int64 (λ m v. record m { seconds = v }))
      ∷ (16, set_by w.read_int32 (λ m v. record m { nanos = v }))
      ∷ []
