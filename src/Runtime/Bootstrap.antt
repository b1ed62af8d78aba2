-- ===== src/Runtime/Bootstrap.antt =====
-- sdk/node/src/runtime.ts: `readBootstrap`. The child process's events are the actions, in the order in which
-- the event loop delivers them. `JSON.parse`, with the decoding and trimming of its text, is a parameter:
-- it yields the three members of the parsed value, or nothing where it or the access of a member throws.
use meta_go.Prelude.{
  ℕ, zero, suc, ◌+◌, ◌*◌, ◌%◌, ◌^◌, ◌≤◌, String, Bool, true, false, not, ◌&&◌, ◌||◌, List, [], ◌∷◌,
  ◌++◌, Option, none, some, ◌≡◌, refl, ◌==◌, leb, length, take, if◌then◌else◌,
}
use text.Mathlib.Text.{◌==◌ as str_eq}
use meta_go.Client.Timeout.{Number, nan, infinity, finite}
pub mod Chunks
pub mod Outcome

-- A value that `JSON.parse` makes; `other` is null, a Boolean, an array or an object, and whether it is truthy.
pub data Value : Type 0 where
  undefined : Value
  string : String → Value
  number : Number → Value
  other : (truthy : Bool) → Value

pub record Fields : Type 0 where
  pub endpoint : Value
  pub token : Value
  pub protocol : Value

pub record RuntimeBootstrap : Type 0 where
  pub endpoint : Value
  pub token : Value
  pub protocol : Number

-- How the promise settles: the errors are those of class RuntimeLaunchError.
pub data Settlement : Type 0 where
  bootstrapped : RuntimeBootstrap → Settlement
  too_large : Settlement
  invalid_bootstrap : Settlement
  process_failed : String → Settlement
  exited : String → Settlement
  timed_out : Settlement

pub data ChildEvent : Type 0 where
  on_data : List ℕ → ChildEvent
  on_error : String → ChildEvent
  on_exit : String → ChildEvent
  on_timeout : ChildEvent

pub record Reading : Type 0 where
  pub bytes : List ℕ
  pub settled : Option Settlement

abbrev pub max_bootstrap_bytes : ℕ
max_bootstrap_bytes = 65536

unfoldable pub start_reading : Reading
start_reading = record { bytes = []; settled = none }

abbrev pub number_truthy : Number → Bool
number_truthy nan = false
number_truthy (infinity negative) = true
number_truthy (finite negative m k) = not (m == 0)

unfoldable pub value_truthy : Value → Bool
value_truthy undefined = false
value_truthy (string s) = not (str_eq s "")
value_truthy (number n) = number_truthy n
value_truthy (other truthy) = truthy

-- `Number.isInteger`.
unfoldable pub is_integer : Number → Bool
is_integer nan = false
is_integer (infinity negative) = false
is_integer (finite negative m k) = m % 2 ^ k == 0

-- `typeof protocol === "number" && Number.isInteger(protocol)`.
unfoldable pub integer_of : Value → Option Number
integer_of (number n) = if is_integer n then some n else none
integer_of _ = none

abbrev pub with_protocol : Fields → Option Number → Settlement
with_protocol f none = invalid_bootstrap
with_protocol f (some n) =
    bootstrapped (record { endpoint = f.endpoint; token = f.token; protocol = n })

unfoldable pub check_fields : Option Fields → Settlement
check_fields none = invalid_bootstrap
check_fields (some f) =
    if value_truthy f.endpoint && value_truthy f.token
    then with_protocol f (integer_of f.protocol)
    else invalid_bootstrap

abbrev pub extended : ℕ → Option (List ℕ) → Option (List ℕ)
extended b none = none
extended b (some l) = some (b ∷ l)

-- `data.subarray(0, data.indexOf(0x0a))`, or nothing where there is no newline.
unfoldable pub first_line : List ℕ → Option (List ℕ)
first_line [] = none
first_line (b ∷ bs) = if b == 10 then some [] else extended b (first_line bs)

module _ (parse : List ℕ → Option Fields) where
  abbrev pub of_line : Option (List ℕ) → Option Settlement
  of_line none = none
  of_line (some l) = some (check_fields (parse l))

  -- What `onData` makes of the bytes so far.
  unfoldable pub examine : List ℕ → Option Settlement
  examine bs =
      if leb (length bs) max_bootstrap_bytes then of_line (first_line bs) else some too_large

  -- `finish` takes the listeners off, so that nothing changes a promise that has settled.
  abbrev pub respond : Option Settlement → ChildEvent → Reading → Reading
  respond (some o) e r = r
  respond none (on_data chunk) r = record r {
    bytes = r.bytes ++ chunk;
    settled = examine (r.bytes ++ chunk);
  }
  respond none (on_error message) r = record r { settled = some (process_failed message) }
  respond none (on_exit reason) r = record r { settled = some (exited reason) }
  respond none on_timeout r = record r { settled = some timed_out }

  unfoldable pub on_event : ChildEvent → Reading → Reading
  on_event e r = respond r.settled e r

  unfoldable pub read_bootstrap : List ChildEvent → Reading → Reading
  read_bootstrap [] r = r
  read_bootstrap (e ∷ es) r = read_bootstrap es (on_event e r)
