-- ===== src/Client/Lifecycle.antt =====
-- sdk/node/src/client.ts: `create`, `events` and `close` of class MetaClient, with the Set `eventStreams`.
-- What the client does outside of itself is a list of effects. A stream has the position at which
-- `events` made it as its identity.
pub mod Streams
pub mod Creation
use meta_go.Prelude.{
  ℕ, suc, ◌+◌, String, Bool, true, false, ◌||◌, List, [], ◌∷◌, ◌++◌, map, Option, none, some, ◌==◌,
  if◌then◌else◌,
}
use meta_go.Proto.Common.{ProtocolVersion}
use meta_go.Proto.Info.{GetInfoResponse}
use meta_go.Proto.Event.{Event}
use meta_go.Proto.Session.{SubscribeEventsRequest}
use meta_go.Errors.{JsError, protocol_mismatch_error, Result, ok, err, error_middleware}
use meta_go.Client.Auth.{default}
use meta_go.Stream.{Stream, Effect, calls, aborts, on_close, finishes, new_stream, close_stream}
use meta_go.Stream.Actions.{Action, act}

-- A stream that `events` has made, and whether it is in `this.eventStreams`.
pub record Member (E : Type 0) : Type 0 where
  pub id : ℕ
  pub stream : Stream E
  pub registered : Bool

pub record Client (E : Type 0) : Type 0 where
  pub capabilities : List String
  pub runtime_info : Option GetInfoResponse
  pub managed : Bool
  pub members : List (Member E)
  pub next_id : ℕ
  pub closed : Bool

pub data ClientEffect : Type 0 where
  subscribes : SubscribeEventsRequest → ClientEffect
  of_stream : ℕ → Effect → ClientEffect
  closes_channel : ClientEffect
  stops_runtime : ClientEffect

pub record EventOptions : Type 0 where
  pub buffer : Option ℕ
  pub iterator_buffer : Option ℕ

pub data ClientAction (E : Type 0) : Type 0 where
  opens : String → EventOptions → ClientAction E
  acts : ℕ → Action E → ClientAction E
  closes : ClientAction E

-- The effect is a call of `onClose`, which deletes the stream from the Set.
abbrev pub is_on_close : Effect → Bool
is_on_close (calls l e) = false
is_on_close aborts = false
is_on_close on_close = true
is_on_close (finishes w) = false

unfoldable pub any_on_close : List Effect → Bool
any_on_close [] = false
any_on_close (e ∷ es) = is_on_close e || any_on_close es

-- `info.protocol?.major ?? 0`.
abbrev pub major_of : Option ProtocolVersion → ℕ
major_of none = 0
major_of (some v) = v.major

module _ {E : Type 0} where
  -- The private constructor.
  unfoldable pub new_client : Bool → Client E
  new_client managed = record {
    capabilities = [];
    runtime_info = none;
    managed = managed;
    members = [];
    next_id = 0;
    closed = false;
  }

  unfoldable pub events : String → EventOptions → Client E → Client E × List ClientEffect
  events id o c = (
    record c {
      members =
          c.members
          ++ (record {
            id = c.next_id;
            stream = new_stream (default 256 o.iterator_buffer);
            registered = true;
          }
              ∷ []);
      next_id = suc c.next_id;
    },
    subscribes (record { session_id = id; buffer = default 0 o.buffer }) ∷ [],
  )

  -- An action on the stream, whose `onClose` deletes it from the Set.
  unfoldable pub after_action : Member E → Stream E × List Effect → Member E × List ClientEffect
  after_action m (s, out) = (
    record m { stream = s; registered = if any_on_close out then false else m.registered },
    map (of_stream m.id) out,
  )

  unfoldable pub close_member : Member E → Member E × List ClientEffect
  close_member m = if m.registered then after_action m (close_stream m.stream) else (m, [])

  -- `for (const stream of this.eventStreams) stream.close()`.
  unfoldable pub close_members : List (Member E) → List (Member E) × List ClientEffect
  close_members [] = ([], [])
  close_members (m ∷ ms) =
      let (m', out) = close_member m in
      let (ms', more) = close_members ms in (m' ∷ ms', out ++ more)

  abbrev pub unregistered : Member E → Member E
  unregistered m = record m { registered = false }

  unfoldable pub close_client : Client E → Client E × List ClientEffect
  close_client c =
      if c.closed
      then (c, [])
      else let (ms, out) = close_members c.members in
        (
          record c { closed = true; members = map unregistered ms },
          out ++ (closes_channel ∷ (if c.managed then stops_runtime ∷ [] else [])),
        )

  -- `create`, from the answer of `getInfo`.
  unfoldable pub create : ℕ → Bool → Result GetInfoResponse → Result (Client E) × List ClientEffect
  create protocol_major managed answer = elim (error_middleware answer) [
    | err e ↦ (err e, (close_client (new_client managed)).1)
    | ok info ↦
        if major_of info.protocol == protocol_major
        then (
          ok (record (new_client managed) {
            runtime_info = some info;
            capabilities = info.capabilities;
          }),
          [],
        )
        else (
          err (protocol_mismatch_error protocol_major (major_of info.protocol)),
          (close_client (new_client managed)).1,
        )
  ]

module _ {E : Type 0} (overflow : ℕ → E) (truthy : E → Bool) (throws : ℕ → Event → Option E) where
  unfoldable pub act_member : ℕ → Action E → List (Member E) → List (Member E) × List ClientEffect
  act_member i a [] = ([], [])
  act_member i a (m ∷ ms) =
      let later = act_member i a ms in
      let now = after_action m (act overflow truthy throws a m.stream) in
      if m.id == i then (now.0 ∷ ms, now.1) else (m ∷ later.0, later.1)

  -- What happens to a client after `create`.
  unfoldable pub client_step : ClientAction E → Client E → Client E × List ClientEffect
  client_step (opens id o) c = events id o c
  client_step (acts i a) c = let r = act_member i a c.members in (record c { members = r.0 }, r.1)
  client_step closes c = close_client c

  unfoldable pub client_run : List (ClientAction E) → Client E → Client E
  client_run [] c = c
  client_run (a ∷ rest) c = client_run rest (client_step a c).0
