-- ===== src/Client/Timeout.antt =====
-- sdk/node/src/client.ts: `durationFromMilliseconds`. A Number is a double, and the quotient by 1000 is
-- rounded as a double's is.
use meta_go.Prelude.{
  ℕ, zero, suc, ◌⊎◌, inl, inr, arith, ◌+◌, ◌*◌, ◌/◌, ◌%◌, ◌^◌, ◌<◌, ◌≤◌, ltb, leb, leb→le, if-intro,
  ap, ◌∙◌, Bool, true, false, ◌||◌, ◌==◌, ◌≡◌, refl, pos, if◌then◌else◌,
}
use meta_go.Proto.Google.{Duration}
use meta_go.Errors.{range_error, Result, ok, err}

-- A double: `finite negative m k` is m / 2 ^ k, negated when `negative` holds.
pub data Number : Type 0 where
  nan : Number
  infinity : (negative : Bool) → Number
  finite : (negative : Bool) (m k : ℕ) → Number

-- A quotient q below 2 ^ 53 has 53 significant bits: its unit in the last place is 1 / `grow 52 q 1`.
-- Below 1 the unit stays at 2 ^ -52, and the quotient truncates to 0 all the same.
unfoldable pub grow : ℕ → ℕ → ℕ → ℕ
grow zero q s = s
grow (suc fuel) q s = if leb (2 ^ 52) (q * s) then s else grow fuel q (2 * s)

-- From 2 ^ 53 on, the unit in the last place is `coarsen 1024 q 1`. No double is 2 ^ 1024 or more.
unfoldable pub coarsen : ℕ → ℕ → ℕ → ℕ
coarsen zero q t = t
coarsen (suc fuel) q t = if ltb q (2 ^ 53 * t) then t else coarsen fuel q (2 * t)

-- The quotient rounded to a natural number, and to the even one of two that are equally near.
unfoldable pub half_even : ℕ → ℕ → ℕ
half_even a b =
    let m = a / b in
    let r = a % b in if ltb (2 * r) b then m else if ltb b (2 * r) then m + 1 else m + m % 2

-- `Math.trunc(milliseconds / 1000)`.
unfoldable pub truncated_quotient : ℕ → ℕ
unfolding grow coarsen half_even
truncated_quotient n =
    let s = grow 52 (n / 1000) 1 in
    let t = coarsen 1024 (n / 1000) 1 in half_even (n * s) (1000 * t) * t / s

unfoldable pub duration_from_milliseconds : Number → Result Duration
unfolding truncated_quotient
duration_from_milliseconds nan = err (range_error "timeoutMs must be positive")
duration_from_milliseconds (infinity _) = err (range_error "timeoutMs must be positive")
duration_from_milliseconds (finite negative m k) =
    if negative || m == 0
    then err (range_error "timeoutMs must be positive")
    else ok (record {
      seconds = pos (truncated_quotient (m / 2 ^ k));
      nanos = pos (m / 2 ^ k % 1000 * 1000000);
    })

abbrev pub IsPositive : Number → Type 0
IsPositive nan = ⊥
IsPositive (infinity _) = ⊥
IsPositive (finite negative m k) = (negative ≡ false) × (0 < m)

-- `Math.trunc` of a positive number.
abbrev pub whole : Number → ℕ
whole nan = 0
whole (infinity _) = 0
whole (finite negative m k) = m / 2 ^ k

-- A duration and the milliseconds it lasts, with less than a second in the nanoseconds.
pub record Lasts (d : Duration) (ms : ℕ) : Type 0 where
  pub seconds : ℕ
  pub nanos : ℕ
  pub is_seconds : d.seconds ≡ pos seconds
  pub is_nanos : d.nanos ≡ pos nanos
  pub nanos-bound : nanos < 1000000000
  pub sum : seconds * 1000000000 + nanos ≡ ms * 1000000

≤-cases : (a b : ℕ) → (a ≤ b) ⊎ (b < a)
≤-cases a b = ground arith

grow_lem : (fuel q s : ℕ) → (2 ^ 52 ≤ q * grow fuel q s) ⊎ (grow fuel q s ≡ s * 2 ^ fuel)
unfolding grow
grow_lem zero q s = inr (omega arith)
grow_lem (suc fuel) q s =
    if-intro (λ g. (2 ^ 52 ≤ q * g) ⊎ (g ≡ s * 2 ^ suc fuel)) (leb (2 ^ 52) (q * s)) s
      (grow fuel q (2 * s)) (λ h. inl (leb→le (2 ^ 52) (q * s) h))
      (λ h. elim (grow_lem fuel q (2 * s)) [ inl full ↦ inl full | inr all ↦ inr (grind arith) ])

product-le : (q g : ℕ) → q ≤ 9007199254740 → g ≤ 500 → q * g ≤ 9007199254740 * 500
product-le q g h k = grind arith

unit-fine : (q g : ℕ) → q ≤ 9007199254740 → 2 ^ 52 ≤ q * g → 501 ≤ g
unit-fine q g h full = elim (≤-cases 501 g) [
  | inl fine ↦ fine
  | inr coarse ↦ grind (arith, product-le q g h (omega arith))
]

grow-fine : (q : ℕ) → q ≤ 9007199254740 → 501 ≤ grow 52 q 1
grow-fine q h = elim (grow_lem 52 q 1) [
  | inl full ↦ unit-fine q (grow 52 q 1) h full
  | inr all ↦ omega arith
]

coarsen-small : (fuel q : ℕ) → q < 2 ^ 53 → coarsen (suc fuel) q 1 ≡ 1
unfolding coarsen
coarsen-small fuel q h = ground arith

half_even-near : (a : ℕ) → (half_even a 1000 * 1000 ≤ a + 500) × (a ≤ half_even a 1000 * 1000 + 500)
unfolding half_even
half_even-near a = ground arith

div_between : (s m q : ℕ) → q * s ≤ m → m < (q + 1) * s → m / s ≡ q
div_between s m q lo hi = grind arith

product-split : (n s : ℕ) → n * s ≡ 1000 * (n / 1000 * s) + n % 1000 * s
product-split n s = ap (λ a. a * s) parts ∙ spread (n / 1000) (n % 1000)
  where
    parts : n ≡ 1000 * (n / 1000) + n % 1000
    parts = omega arith

    spread : (b c : ℕ) → (1000 * b + c) * s ≡ 1000 * (b * s) + c * s
    spread b c = grind arith

remainder-le : (r s : ℕ) → r ≤ 999 → r * s ≤ 999 * s
remainder-le r s h = grind arith

next_product : (q s m : ℕ) → m < q * s + s → m < (q + 1) * s
next_product q s m h = grind arith

-- A mantissa within half a unit truncates to the exact quotient, where the unit is fine enough.
near-quotient :
    (n s m : ℕ) → 501 ≤ s → m * 1000 ≤ n * s + 500 → n * s ≤ m * 1000 + 500 → m / s ≡ n / 1000
near-quotient n s m fine above below =
    let parts = product-split n s in
    let rest = remainder-le (n % 1000) s (omega arith) in
    div_between s m (n / 1000) (omega (arith, parts, rest))
      (next_product (n / 1000) s m (omega (arith, parts, rest)))

rounded_lem : (n s t : ℕ) → t ≡ 1 → 501 ≤ s → half_even (n * s) (1000 * t) * t / s ≡ n / 1000
rounded_lem n s t one fine =
    let near = half_even-near (n * s) in
    rw one (
      near-quotient n s (half_even (n * s) 1000 * 1) fine (omega (arith, near))
        (omega (arith, near)))

truncated_quotient-exact : (n : ℕ) → n ≤ 2 ^ 53 → truncated_quotient n ≡ n / 1000
unfolding truncated_quotient
truncated_quotient-exact n h =
    rounded_lem n (grow 52 (n / 1000) 1) (coarsen 1024 (n / 1000) 1)
      (coarsen-small 1023 (n / 1000) (omega arith)) (grow-fine (n / 1000) (omega arith))

abbrev duration : ℕ → Duration
duration q = record { seconds = pos (truncated_quotient q); nanos = pos (q % 1000 * 1000000) }

duration-Lasts : (q : ℕ) → Lasts (duration q) q ⊎ (2 ^ 53 < q)
duration-Lasts q = elim (≤-cases q (2 ^ 53)) [
  | inl small ↦ inl (record {
    seconds = q / 1000;
    nanos = q % 1000 * 1000000;
    is_seconds = ap pos (truncated_quotient-exact q small);
    is_nanos = refl;
    nanos-bound = omega arith;
    sum = omega arith;
  })
  | inr large ↦ inr large
]

-- A timeout is accepted exactly when it is a positive finite number, and any other throws the
-- RangeError. The duration then lasts its whole milliseconds, with the nanoseconds below a second,
-- unless they are more than 2 ^ 53, where the quotient of doubles may be rounded.
pub duration_from_milliseconds_lem :
    (value : Number)
    → (IsPositive value
        × ((d : Duration) × (duration_from_milliseconds value ≡ ok d)
            × (Lasts d (whole value) ⊎ (2 ^ 53 < whole value))))
      ⊎ ((¬ IsPositive value)
          × (duration_from_milliseconds value ≡ err (range_error "timeoutMs must be positive")))
unfolding duration_from_milliseconds
duration_from_milliseconds_lem nan = inr ((λ h. h), refl)
duration_from_milliseconds_lem (infinity _) = inr ((λ h. h), refl)
duration_from_milliseconds_lem (finite true m k) = inr ((λ h. cc), refl)
duration_from_milliseconds_lem (finite false zero k) = inr ((λ h. omega arith), refl)
duration_from_milliseconds_lem (finite false (suc m) k) =
    inl (
      (refl, omega arith),
      (duration (suc m / 2 ^ k), ground arith, duration-Lasts (suc m / 2 ^ k)),
    )
