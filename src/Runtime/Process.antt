-- ===== src/Runtime/Process.antt =====
-- sdk/node/src/runtime.ts: `ManagedRuntime.start`, from the settled bootstrap on, and `ManagedRuntime.stop`.
-- `exited` is whether the child process has an exit code or a signal code by then.
use meta_go.Prelude.{
  ◌^◌, ◌≡◌, ◌≢◌, ◌⊎◌, inl, inr, refl, Bool, true, false, ◌&&◌, not, List, [], ◌∷◌, ◌++◌, ◌==◌,
  append-nil, arith, Bool-cases, if◌then◌else◌,
}
use meta_go.Client.Timeout.{Number, nan, infinity, finite}
use meta_go.Runtime.Bootstrap.{
  RuntimeBootstrap, Settlement, bootstrapped, too_large, invalid_bootstrap, process_failed, exited,
  timed_out,
}

pub data Signal : Type 0 where
  sigterm : Signal
  sigkill : Signal

pub record ManagedRuntime : Type 0 where
  pub bootstrap : RuntimeBootstrap
  pub has_exited : Bool
  pub stopped : Bool

-- What `start` returns or throws.
pub data Started : Type 0 where
  running : ManagedRuntime → Started
  protocol_mismatch : Number → Started
  launch_error : Settlement → Started

-- `protocol === PROTOCOL_MAJOR`, which is 1.
unfoldable pub is_protocol_major : Number → Bool
is_protocol_major nan = false
is_protocol_major (infinity negative) = false
is_protocol_major (finite negative m k) = not negative && m == 2 ^ k

-- The `catch` of `start`.
abbrev pub kill_unless : Bool → List Signal
kill_unless true = []
kill_unless false = sigterm ∷ []

abbrev pub failed_start : Settlement → Bool → Started × List Signal
failed_start s gone = (launch_error s, kill_unless gone)

unfoldable pub start : Settlement → Bool → Started × List Signal
start (bootstrapped b) gone =
    if is_protocol_major b.protocol
    then (running (record { bootstrap = b; has_exited = gone; stopped = false }), [])
    else (protocol_mismatch b.protocol, sigterm ∷ kill_unless gone)
start too_large gone = failed_start too_large gone
start invalid_bootstrap gone = failed_start invalid_bootstrap gone
start (process_failed m) gone = failed_start (process_failed m) gone
start (exited m) gone = failed_start (exited m) gone
start timed_out gone = failed_start timed_out gone

-- `in_time` is whether the process exits before the delay ends.
unfoldable pub stop : Bool → ManagedRuntime → ManagedRuntime × List Signal
stop in_time r =
    if r.stopped then (r, []) else if r.has_exited then (record r { stopped = true }, []) else (
      record r { stopped = true; has_exited = true },
      sigterm ∷ (if in_time then [] else sigkill ∷ []),
    )

-- Several calls of `stop`, one after another.
unfoldable pub stop_all : List Bool → ManagedRuntime → List Signal
stop_all [] r = []
stop_all (t ∷ ts) r = (stop t r).1 ++ stop_all ts (stop t r).0

-- A start leaves a running process without a signal only with the right protocol; any other process has
-- exited or is asked to end.
abbrev pub IsHandled : Bool → Started × List Signal → Type 0
IsHandled gone (running r, signals) =
    (is_protocol_major r.bootstrap.protocol ≡ true) × (r.stopped ≡ false) × (signals ≡ [])
IsHandled gone (protocol_mismatch n, signals) = (is_protocol_major n ≡ false) × (signals ≢ [])
IsHandled gone (launch_error s, signals) = (gone ≡ true) ⊎ (signals ≡ sigterm ∷ [])

failed_start-IsHandled : (s : Settlement) (gone : Bool) → IsHandled gone (failed_start s gone)
failed_start-IsHandled s true = inl refl
failed_start-IsHandled s false = inr refl

-- A runtime is handed out, unstopped and with no signal sent, only if its protocol is the SDK's major; a
-- process with another protocol is signalled, and after any other failure the process has exited or is asked
-- to end.
pub start-IsHandled : (s : Settlement) (gone : Bool) → IsHandled gone (start s gone)
unfolding start
start-IsHandled (bootstrapped b) gone = elim (Bool-cases (is_protocol_major b.protocol)) [
  | inl h ↦ rw h (h, refl, refl)
  | inr h ↦ rw h (h, λ e. cc)
]
start-IsHandled too_large gone = failed_start-IsHandled too_large gone
start-IsHandled invalid_bootstrap gone = failed_start-IsHandled invalid_bootstrap gone
start-IsHandled (process_failed m) gone = failed_start-IsHandled (process_failed m) gone
start-IsHandled (exited m) gone = failed_start-IsHandled (exited m) gone
start-IsHandled timed_out gone = failed_start-IsHandled timed_out gone

stop_all-stopped : (ts : List Bool) (r : ManagedRuntime) → r.stopped ≡ true → stop_all ts r ≡ []
unfolding stop_all stop
stop_all-stopped [] r h = refl
stop_all-stopped (t ∷ ts) r h = ground (arith, stop_all-stopped ts r)

-- However often a runtime is stopped, its process gets one SIGTERM at most, and a SIGKILL only behind it
-- and only if it does not exit in time; a process that has exited gets none.
pub stop_all_lem :
    (t : Bool) (ts : List Bool) (r : ManagedRuntime)
    → stop_all (t ∷ ts) r ≡ (
        if r.stopped
        then []
        else if r.has_exited
        then []
        else if t
        then sigterm ∷ []
        else sigterm ∷ sigkill ∷ [])
unfolding stop_all stop
stop_all_lem t ts r =
    ground (arith, stop_all-stopped ts r, stop_all-stopped ts (stop t r).0, append-nil (stop t r).1)
