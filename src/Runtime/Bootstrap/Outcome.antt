-- ===== src/Runtime/Bootstrap/Outcome.antt =====
-- sdk/node/src/runtime.ts: what `readBootstrap` lets through.
use meta_go.Prelude.{
  ℕ, Bool, true, false, ◌&&◌, List, [], ◌∷◌, ◌++◌, length, Option, none, some, ◌≡◌, refl, if-intro,
  leb,
}
use meta_go.Client.Timeout.{Number}
use meta_go.Runtime.Bootstrap.{
  Value, undefined, string, number, other, Fields, Settlement, bootstrapped, ChildEvent, on_data,
  on_error, on_exit, on_timeout, Reading, start_reading, value_truthy, is_integer, integer_of,
  with_protocol, check_fields, first_line, of_line, examine, respond, on_event, read_bootstrap,
}

-- A bootstrap has an endpoint and a token that are truthy, and an integer protocol.
abbrev pub IsGood : Option Settlement → Type 0
IsGood (some (bootstrapped b)) =
    (value_truthy b.endpoint ≡ true)
    × (value_truthy b.token ≡ true)
    × (is_integer b.protocol ≡ true)
IsGood (some _) = Unit
IsGood none = Unit

abbrev IsInteger : Option Number → Type 0
IsInteger none = Unit
IsInteger (some n) = is_integer n ≡ true

integer_of-IsInteger : (v : Value) → IsInteger (integer_of v)
unfolding integer_of
integer_of-IsInteger undefined = tt
integer_of-IsInteger (string s) = tt
integer_of-IsInteger (number n) = if-intro IsInteger (is_integer n) (some n) none (λ h. h) (λ h. tt)
integer_of-IsInteger (other b) = tt

and-true : (a b : Bool) → (a && b) ≡ true → (a ≡ true) × (b ≡ true)
and-true true b h = (refl, h)
and-true false b h = absurd (cc)

with_protocol-IsGood :
    (f : Fields) (o : Option Number)
    → (value_truthy f.endpoint && value_truthy f.token) ≡ true
    → IsInteger o
    → IsGood (some (with_protocol f o))
with_protocol-IsGood f none h k = tt
with_protocol-IsGood f (some n) h k = let (a, b) = and-true _ _ h in (a, b, k)

check_fields-IsGood : (f : Option Fields) → IsGood (some (check_fields f))
unfolding check_fields
check_fields-IsGood none = tt
check_fields-IsGood (some f) =
    if-intro (λ s. IsGood (some s)) (value_truthy f.endpoint && value_truthy f.token) _ _
      (λ h. with_protocol-IsGood f (integer_of f.protocol) h (integer_of-IsInteger f.protocol))
      (λ h. tt)

module _ (parse : List ℕ → Option Fields) where
  of_line-IsGood : (l : Option (List ℕ)) → IsGood (of_line parse l)
  of_line-IsGood none = tt
  of_line-IsGood (some l) = check_fields-IsGood (parse l)

  examine-IsGood : (bs : List ℕ) → IsGood (examine parse bs)
  unfolding examine
  examine-IsGood bs =
      if-intro IsGood (leb (length bs) 65536) _ _ (λ h. of_line-IsGood (first_line bs)) (λ h. tt)

  respond-IsGood :
      (o : Option Settlement) (e : ChildEvent) (r : Reading)
      → IsGood r.settled
      → IsGood (respond parse o e r).settled
  respond-IsGood (some o) e r h = h
  respond-IsGood none (on_data chunk) r h = examine-IsGood (r.bytes ++ chunk)
  respond-IsGood none (on_error m) r h = tt
  respond-IsGood none (on_exit m) r h = tt
  respond-IsGood none on_timeout r h = tt

  read-IsGood :
      (es : List ChildEvent) (r : Reading)
      → IsGood r.settled
      → IsGood (read_bootstrap parse es r).settled
  unfolding read_bootstrap on_event
  read-IsGood [] r h = h
  read-IsGood (e ∷ es) r h =
      read-IsGood es (respond parse r.settled e r) (respond-IsGood r.settled e r h)

  -- Whatever the process does and however its output parses, a bootstrap that is returned has a truthy
  -- endpoint, a truthy token and an integer protocol.
  pub read_bootstrap-IsGood :
      (es : List ChildEvent) → IsGood (read_bootstrap parse es start_reading).settled
  unfolding start_reading
  read_bootstrap-IsGood es = read-IsGood es start_reading tt
