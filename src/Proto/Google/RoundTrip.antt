-- ===== src/Proto/Google/RoundTrip.antt =====
-- Decoding takes back what encoding wrote: google/protobuf/timestamp.ts and duration.ts.
use meta_go.Prelude.{ℕ, suc, ◌≡◌, refl, List, inl, inr, Option, none, some}
use meta_go.Proto.Time.{Date, Timestamp, to_timestamp, from_timestamp, from_timestamp-to_timestamp}
use meta_go.Wire.{Wire, Case, decode_embedded, select}
use meta_go.Wire.Laws.{WireLaws}
use meta_go.Wire.Encode.{put_message, set_message}
use meta_go.Wire.Fields.{Writes, Writes-nothing, Writes-both, Writes-embedded, put_embedded-none}
use meta_go.Wire.Defaults.{Sets-int32, Sets-int64}
use meta_go.Proto.Google.{
  create_base_timestamp, encode_timestamp, timestamp_cases, Duration, create_base_duration,
  encode_duration, duration_cases, encode_date,
}

module _ {Byte : Type 0} (w : Wire Byte) (laws : WireLaws w) where
  pub timestamp_reads :
      (k : ℕ) (m : Timestamp)
      → Writes w laws (timestamp_cases w) k (encode_timestamp w m) create_base_timestamp m
  unfolding encode_timestamp timestamp_cases create_base_timestamp
  timestamp_reads k m =
      Writes-both w laws (timestamp_cases w) k _ _ _ _ _
        (Sets-int64 w laws (timestamp_cases w) k 8 _ _ m.seconds refl refl)
        (Writes-both w laws (timestamp_cases w) k _ _ _ _ _
          (Sets-int32 w laws (timestamp_cases w) k 16 _ _ m.nanos refl refl)
          (Writes-nothing w laws (timestamp_cases w) k m))

  pub duration_reads :
      (k : ℕ) (m : Duration)
      → Writes w laws (duration_cases w) k (encode_duration w m) create_base_duration m
  unfolding encode_duration duration_cases create_base_duration
  duration_reads k m =
      Writes-both w laws (duration_cases w) k _ _ _ _ _
        (Sets-int64 w laws (duration_cases w) k 8 _ _ m.seconds refl refl)
        (Writes-both w laws (duration_cases w) k _ _ _ _ _
          (Sets-int32 w laws (duration_cases w) k 16 _ _ m.nanos refl refl)
          (Writes-nothing w laws (duration_cases w) k m))

  encode_date-some :
      (d : Date) (t : Timestamp) → to_timestamp d ≡ some t → encode_date w d ≡ encode_timestamp w t
  unfolding encode_date
  encode_date-some d t e = rw (e, encode_date) refl

  encode_date-none : (d : Date) → to_timestamp d ≡ none → encode_date w d ≡ none
  unfolding encode_date
  encode_date-none d e = rw (e, encode_date) refl

  -- A date is written as its timestamp, and made again from the timestamp that is read.
  pub Writes-date :
      {M : Type 0} (cases : List (Case Byte M)) (k tag : ℕ) (set : M → Timestamp → M)
      (f : Option Date → M) (o : Option Date)
      → select tag cases
        ≡ some (set_message (decode_embedded w (timestamp_cases w) create_base_timestamp) set)
      → ((t : Timestamp) → set (f none) t ≡ f (some (from_timestamp t)))
      → Writes w laws cases (suc k) (put_message w tag (encode_date w) o) (f none) (f o)
  unfolding put_message
  Writes-date cases k tag set f none sel e = Writes-nothing w laws cases (suc k) (f none)
  Writes-date cases k tag set f (some d) sel e = elim (from_timestamp-to_timestamp d) [
    | inl (t, made, back) ↦
        rw (encode_date-some d t made, ← back, ← e t)
          (Writes-embedded w laws cases (timestamp_cases w) create_base_timestamp t k tag
            (encode_timestamp w t) set (f none) (timestamp_reads k t) sel)
    | inr (bad, failed) ↦ λ b written_to. absurd (
        put_embedded-none w laws cases tag (encode_date w d) b (encode_date-none d failed)
          written_to)
  ]
