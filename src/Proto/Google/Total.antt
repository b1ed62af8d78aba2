-- ===== src/Proto/Google/Total.antt =====
-- Decoding ends on every input: google/protobuf/timestamp.ts and duration.ts.
use meta_go.Wire.{Wire}
use meta_go.Wire.Laws.{WireLaws}
use meta_go.Wire.Bounded.{IsForward, set_by-Within}
use meta_go.Proto.Google.{timestamp_cases, duration_cases}

module _ {Byte : Type 0} (w : Wire Byte) (laws : WireLaws w) where
  pub timestamp-IsForward : IsForward (timestamp_cases w)
  unfolding timestamp_cases
  timestamp-IsForward =
      (set_by-Within _ _ laws.int64_forward, (set_by-Within _ _ laws.int32_forward, tt))

  pub duration-IsForward : IsForward (duration_cases w)
  unfolding duration_cases
  duration-IsForward =
      (set_by-Within _ _ laws.int64_forward, (set_by-Within _ _ laws.int32_forward, tt))
