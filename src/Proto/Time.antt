-- ===== src/Proto/Time.antt =====
-- sdk/node/src/gen/google/protobuf/timestamp.ts and duration.ts, and the functions `toTimestamp` and
-- `fromTimestamp` that each file of gen/meta/v1 repeats. A Date holds a whole number of milliseconds
-- in the range that ECMAScript allows, or is invalid. `fromTimestamp` computes in exact numbers: the
-- rounding of a double below a millisecond is left out.
use mathlib.Core.HLevel.{hedberg}
use meta_go.Prelude.{
  ◌⊎◌, inl, inr, ℕ, zero, suc, ◌+◌, ◌-◌, ◌*◌, ◌/◌, ◌%◌, ◌≡◌, refl, ap, ◌∙◌, Option, none, some,
  true, false, Bool, ℤ, pos, negsuc, pos_part, neg_part, leb, arith, if◌then◌else◌,
}

-- `TimeClip`: 100,000,000 days on either side of the epoch.
abbrev pub max_time : ℕ
max_time = 8640000000000000

abbrev pub in_range : ℤ → Bool
in_range (pos n) = leb n max_time
in_range (negsuc n) = leb (suc n) max_time

-- The object's time value; `new Date(NaN)` and the like are `invalid`.
pub data Date : Type 0 where
  time : (z : ℤ) → in_range z ≡ true → Date
  invalid : Date

abbrev clip : (z : ℤ) (b : Bool) → in_range z ≡ b → Date
clip z true h = time z h
clip z false h = invalid

abbrev pub time_clip : ℤ → Date
time_clip z = clip z (in_range z) refl

pub record Timestamp : Type 0 where
  pub seconds : ℤ
  pub nanos : ℤ

abbrev pub negated : ℕ → ℤ
negated zero = pos 0
negated (suc n) = negsuc n

-- `Math.trunc(t / 1_000)` and `(t % 1_000) * 1_000_000`: both take the sign of `t`.
abbrev pub split_millis : ℤ → Timestamp
split_millis (pos n) = record { seconds = pos (n / 1000); nanos = pos (n % 1000 * 1000000) }
split_millis (negsuc n) = record {
  seconds = negated (suc n / 1000);
  nanos = negated (suc n % 1000 * 1000000);
}

-- `BigInt(NaN)` throws.
unfoldable pub to_timestamp : Date → Option Timestamp
to_timestamp (time z h) = some (split_millis z)
to_timestamp invalid = none

-- The whole milliseconds of a number of nanoseconds, towards zero.
unfoldable pub whole_millis : ℕ → ℕ → ℤ
whole_millis p n = if leb n p then pos ((p - n) / 1000000) else negated ((n - p) / 1000000)

unfoldable pub total_millis : Timestamp → ℤ
total_millis t =
    whole_millis (pos_part t.seconds * 1000000000 + pos_part t.nanos)
      (neg_part t.seconds * 1000000000 + neg_part t.nanos)

unfoldable pub from_timestamp : Timestamp → Date
unfolding total_millis whole_millis
from_timestamp t = time_clip (total_millis t)

neg_part-negated : (n : ℕ) → neg_part (negated n) ≡ n
neg_part-negated zero = refl
neg_part-negated (suc n) = refl

pos_part-negated : (n : ℕ) → pos_part (negated n) ≡ 0
pos_part-negated zero = refl
pos_part-negated (suc n) = refl

Bool-discrete : Discrete Bool
Bool-discrete = hlevel

clip-time : (z : ℤ) (b : Bool) (q : in_range z ≡ b) (p : in_range z ≡ true) → clip z b q ≡ time z p
clip-time z true q p = ap (time z) (hedberg Bool-discrete (in_range z) true q p)
clip-time z false q p = cc

millis_back : (n : ℕ) → (n / 1000 * 1000000000 + n % 1000 * 1000000) / 1000000 ≡ n
millis_back n = omega arith

whole_millis-pos : (p : ℕ) → whole_millis p 0 ≡ pos (p / 1000000)
unfolding whole_millis
whole_millis-pos p = ground (arith)

whole_millis-neg : (n : ℕ) → whole_millis 0 n ≡ negated (n / 1000000)
unfolding whole_millis
whole_millis-neg zero = refl
whole_millis-neg (suc n) = ground arith

total-split : (z : ℤ) → total_millis (split_millis z) ≡ z
unfolding total_millis
total-split (pos n) = whole_millis-pos _ ∙ ap pos (millis_back n)
total-split (negsuc n) =
    rw
      (
        pos_part-negated (suc n / 1000),
        pos_part-negated (suc n % 1000 * 1000000),
        neg_part-negated (suc n / 1000),
        neg_part-negated (suc n % 1000 * 1000000),
        whole_millis-neg,
        millis_back (suc n),
      )
      refl

time_clip-eq : (a z : ℤ) → a ≡ z → (h : in_range z ≡ true) → time_clip a ≡ time z h
time_clip-eq a z e h = rw e (clip-time z (in_range z) refl h)

from_timestamp-split : (z : ℤ) (h : in_range z ≡ true) → from_timestamp (split_millis z) ≡ time z h
unfolding from_timestamp
from_timestamp-split z h = time_clip-eq (total_millis (split_millis z)) z (total-split z) h

-- A date survives the timestamp that is made of it, on both sides of the epoch; only an invalid date
-- has no timestamp.
pub from_timestamp-to_timestamp :
    (d : Date)
    → ((t : Timestamp) × (to_timestamp d ≡ some t) × (from_timestamp t ≡ d))
      ⊎ ((d ≡ invalid) × (to_timestamp d ≡ none))
unfolding to_timestamp
from_timestamp-to_timestamp (time z h) = inl (split_millis z, refl, from_timestamp-split z h)
from_timestamp-to_timestamp invalid = inr (refl, refl)
