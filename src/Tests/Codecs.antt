-- ===== src/Tests/Codecs.antt =====
-- Messages of each kind through `encode` and `decode`.
use mathlib.Core.Bool.{false≢true}
use package.text.Mathlib.Text.{◌==◌ as str_eq}
use package.text.Mathlib.TextEquality.{eq_iff}
use meta_go.Prelude.{
  ◌≢◌, String, false, sym, ◌∙◌, ℕ, ◌<◌, ◌^◌, ◌↔◌, List, [], ◌∷◌, ◌++◌, none, some, true, pos,
  negsuc, ◌≡◌, refl, length, arith,
}
use meta_go.Wire.{got, stuck, select}
use meta_go.Wire.Encode.{
  is_uint64, is_int64, put_string, put_bool, put_uint64, put_int32, put_int64, put_uint32,
  put_embedded, put_message, put_messages, put_strings,
}
use meta_go.Wire.Keys.{precedes}
use meta_go.Wire.Objects.{assign, place}
use meta_go.Wire.Reads.{reader}
use meta_go.Wire.Unknown.{IsField}
use meta_go.Proto.Google.{encode_duration}
use meta_go.Proto.Event.{Event, put_event_payload, encode_event, event_cases}
use meta_go.Proto.Google.{encode_date}
use meta_go.Proto.Activity.{encode_typing_event}
use meta_go.Proto.Auth.{
  cookies, encode_session_auth, put_session_auth_source, encode_cookie_map,
  encode_cookie_map_values_entry,
}
use meta_go.Proto.Snapshot.{
  GetAuthSnapshotResponse, IsValidGetAuthSnapshotResponse, encode_auth_snapshot,
  encode_get_auth_snapshot_response,
}
use meta_go.Proto.Common.{encode_protocol_version}
use meta_go.Proto.Session.{
  SubscribeEventsResponse, CreateSessionRequest, IsValidCreateSessionRequest,
  encode_subscribe_events_response, encode_create_session_request,
}
use meta_go.Proto.Info.{
  GetInfoResponse, GetHealthResponse, encode_get_info_response, encode_get_health_response,
  encode_health_snapshot,
}
use meta_go.Proto.Codec.{
  decode_event, decode_subscribe_events_response, decode_create_session_request,
  decode_get_auth_snapshot_response, decode_get_info_response, decode_get_health_response,
  decode_event-encode_event, decode_subscribe_events_response-encode_subscribe_events_response,
  decode_create_session_request-encode_create_session_request,
  decode_get_auth_snapshot_response-encode_get_auth_snapshot_response,
  decode_get_info_response-encode_get_info_response,
  decode_get_health_response-encode_get_health_response, decode_event-ne-stuck,
  decode_event_ignores_unknown,
}
use meta_go.Proto.Event.Refused.{IsSome, IsUint64, IsWriting, encode_event-IsSome}
use meta_go.Tests.Cells.{Cell, num, int, flag, text, cells, cells-WireLaws}
use meta_go.Tests.Inputs.{typing_event}

abbrev answer : SubscribeEventsResponse
answer = record { event = some typing_event }

abbrev request : CreateSessionRequest
request = record {
  cookies = [];
  e2ee = true;
  event_buffer = 16;
  timeout = some (record { seconds = pos 2; nanos = pos 500000000 });
  auth =
      some (record {
        source = some (cookies (record { values = ("c_user", "1") ∷ ("xs", "2") ∷ [] }));
      });
}

abbrev snapshot : GetAuthSnapshotResponse
snapshot = record {
  snapshot = some (record {
    cookies = some (record { values = ("xs", "2") ∷ [] });
    app_state = none;
    session = none;
  });
}

abbrev info : GetInfoResponse
info = record {
  protocol = some (record { major = 1; minor = 3 });
  build = none;
  capabilities = "session.auth.refresh" ∷ "session.auth.app_state" ∷ [];
}

abbrev health : GetHealthResponse
health = record {
  health = some (record {
    regular = pos 2;
    e2ee = negsuc 0;
    reconnect_count = pos 4;
    engine_dropped_event_count = pos 0;
    subscriber_dropped_event_count = pos 1;
    last_successful_send = none;
    last_receive = none;
    last_error_category = "network";
  });
}

abbrev typing_event_bytes : List Cell
typing_event_bytes =
    num 10
    ∷ text "s"
    ∷ num 16
    ∷ int (pos 5)
    ∷ num 130
    ∷ num 6
    ∷ num 10
    ∷ text "t"
    ∷ num 18
    ∷ text "u"
    ∷ num 24
    ∷ flag true
    ∷ []

typing_event_encodes : encode_event cells typing_event ≡ some typing_event_bytes
unfolding encode_event put_event_payload encode_typing_event put_string put_bool put_uint64
    is_uint64 put_embedded put_message
typing_event_encodes = refl

decode_event-encode_event_example :
    decode_event cells typing_event_bytes
    ≡ got typing_event (reader (length typing_event_bytes) [] 0)
decode_event-encode_event_example =
    decode_event-encode_event cells cells-WireLaws typing_event typing_event_bytes tt
      typing_event_encodes

abbrev answer_bytes : List Cell
answer_bytes =
    num 10
    ∷ num 12
    ∷ num 10
    ∷ text "s"
    ∷ num 16
    ∷ int (pos 5)
    ∷ num 130
    ∷ num 6
    ∷ num 10
    ∷ text "t"
    ∷ num 18
    ∷ text "u"
    ∷ num 24
    ∷ flag true
    ∷ []

answer_encodes : encode_subscribe_events_response cells answer ≡ some answer_bytes
unfolding encode_subscribe_events_response encode_event put_event_payload encode_typing_event
    put_string put_bool put_uint64 is_uint64 put_embedded put_message
answer_encodes = refl

decode_subscribe_events_response-encode_subscribe_events_response_example :
    decode_subscribe_events_response cells answer_bytes
    ≡ got answer (reader (length answer_bytes) [] 0)
decode_subscribe_events_response-encode_subscribe_events_response_example =
    decode_subscribe_events_response-encode_subscribe_events_response cells cells-WireLaws answer
      answer_bytes tt answer_encodes

abbrev request_bytes : List Cell
request_bytes =
    num 16
    ∷ flag true
    ∷ num 24
    ∷ num 16
    ∷ num 34
    ∷ num 4
    ∷ num 8
    ∷ int (pos 2)
    ∷ num 16
    ∷ int (pos 500000000)
    ∷ num 42
    ∷ num 14
    ∷ num 10
    ∷ num 12
    ∷ num 10
    ∷ num 4
    ∷ num 10
    ∷ text "c_user"
    ∷ num 18
    ∷ text "1"
    ∷ num 10
    ∷ num 4
    ∷ num 10
    ∷ text "xs"
    ∷ num 18
    ∷ text "2"
    ∷ []

request_encodes : encode_create_session_request cells request ≡ some request_bytes
unfolding encode_create_session_request encode_duration encode_session_auth put_session_auth_source
    encode_cookie_map encode_cookie_map_values_entry put_string put_bool put_uint32 put_int32
    put_int64 is_int64 put_embedded put_message put_messages
request_encodes = refl

differ : (s t : String) → str_eq s t ≡ false → s ≢ t
differ s t h e = false≢true (sym h ∙ (eq_iff s t).1 e)

request-valid : IsValidCreateSessionRequest request
unfolding precedes
request-valid = (
  tt,
  (
    differ "c_user" "__proto__" refl,
    (differ "c_user" "xs" refl, refl, tt),
    (differ "xs" "__proto__" refl, tt, tt),
  ),
)

-- Array indices come first, in ascending order.
index_order :
    assign "7" "c" (assign "10" "b" (assign "a" "a" []))
    ≡ ("7", "c") ∷ ("10", "b") ∷ ("a", "a") ∷ []
unfolding assign place precedes
index_order = refl

prototype_ignored : assign "__proto__" "a" (("b", "c") ∷ []) ≡ ("b", "c") ∷ []
unfolding assign
prototype_ignored = refl

decode_create_session_request-encode_create_session_request_example :
    decode_create_session_request cells request_bytes
    ≡ got request (reader (length request_bytes) [] 0)
decode_create_session_request-encode_create_session_request_example =
    decode_create_session_request-encode_create_session_request cells cells-WireLaws request
      request_bytes request-valid request_encodes

abbrev snapshot_bytes : List Cell
snapshot_bytes =
    num 10 ∷ num 8 ∷ num 10 ∷ num 6 ∷ num 10 ∷ num 4 ∷ num 10 ∷ text "xs" ∷ num 18 ∷ text "2" ∷ []

snapshot_encodes : encode_get_auth_snapshot_response cells snapshot ≡ some snapshot_bytes
unfolding encode_get_auth_snapshot_response encode_auth_snapshot encode_cookie_map
    encode_cookie_map_values_entry put_string put_embedded put_message put_messages
snapshot_encodes = refl

snapshot-valid : IsValidGetAuthSnapshotResponse snapshot
snapshot-valid = (differ "xs" "__proto__" refl, tt, tt)

decode_get_auth_snapshot_response-encode_get_auth_snapshot_response_example :
    decode_get_auth_snapshot_response cells snapshot_bytes
    ≡ got snapshot (reader (length snapshot_bytes) [] 0)
decode_get_auth_snapshot_response-encode_get_auth_snapshot_response_example =
    decode_get_auth_snapshot_response-encode_get_auth_snapshot_response cells cells-WireLaws
      snapshot snapshot_bytes snapshot-valid snapshot_encodes

abbrev info_bytes : List Cell
info_bytes =
    num 10
    ∷ num 4
    ∷ num 8
    ∷ num 1
    ∷ num 16
    ∷ num 3
    ∷ num 26
    ∷ text "session.auth.refresh"
    ∷ num 26
    ∷ text "session.auth.app_state"
    ∷ []

info_encodes : encode_get_info_response cells info ≡ some info_bytes
unfolding encode_get_info_response encode_protocol_version put_uint32 put_embedded put_message
    put_strings
info_encodes = refl

decode_get_info_response-encode_get_info_response_example :
    decode_get_info_response cells info_bytes ≡ got info (reader (length info_bytes) [] 0)
decode_get_info_response-encode_get_info_response_example =
    decode_get_info_response-encode_get_info_response cells cells-WireLaws info info_bytes
      info_encodes

abbrev health_bytes : List Cell
health_bytes =
    num 10
    ∷ num 10
    ∷ num 8
    ∷ int (pos 2)
    ∷ num 16
    ∷ int (negsuc 0)
    ∷ num 24
    ∷ int (pos 4)
    ∷ num 40
    ∷ int (pos 1)
    ∷ num 66
    ∷ text "network"
    ∷ []

health_encodes : encode_get_health_response cells health ≡ some health_bytes
unfolding encode_get_health_response encode_health_snapshot put_string put_int32 put_int64
    put_uint64 is_int64 is_uint64 put_embedded put_message
health_encodes = refl

decode_get_health_response-encode_get_health_response_example :
    decode_get_health_response cells health_bytes ≡ got health (reader (length health_bytes) [] 0)
decode_get_health_response-encode_get_health_response_example =
    decode_get_health_response-encode_get_health_response cells cells-WireLaws health health_bytes
      health_encodes

decode_event-ne-stuck_example : ¬ (decode_event cells (num 10 ∷ num 10 ∷ flag true ∷ []) ≡ stuck)
decode_event-ne-stuck_example =
    decode_event-ne-stuck cells cells-WireLaws (num 10 ∷ num 10 ∷ flag true ∷ [])

-- A field of number 100, which no event has.
abbrev unknown : List Cell
unknown = num 800 ∷ int (pos 3) ∷ []

unknown-IsField : IsField cells 800 unknown
unknown-IsField = record {
  written_tag = num 800 ∷ [];
  payload = int (pos 3) ∷ [];
  shape = refl;
  tagged_by = refl;
  nonzero = λ e. omega arith;
  no_end_group = λ e. omega arith;
  passed = λ rest. refl;
}

unknown-select : select 800 (event_cases cells) ≡ none
unfolding event_cases
unknown-select = refl

decode_event_ignores_unknown_example :
    decode_event cells (typing_event_bytes ++ unknown)
    ≡ got typing_event (reader (length (typing_event_bytes ++ unknown)) [] 0)
decode_event_ignores_unknown_example =
    decode_event_ignores_unknown cells cells-WireLaws typing_event typing_event_bytes unknown 800 tt
      typing_event_encodes unknown-IsField unknown-select

abbrev huge_event : Event
huge_event = record { session_id = "s"; sequence = negsuc 0; emitted_at = none; payload = none }

cells-IsWriting : IsWriting cells
cells-IsWriting = record {
  uint32_writes = small_num;
  uint64_writes = λ n h. tt;
  string_writes = λ s. tt;
}
  where
    small_num : (n : ℕ) → n < 2 ^ 32 → IsSome (cells.uint32 n)
    small_num n h = ground arith

encode_event-IsSome_example : IsSome (encode_event cells huge_event) ↔ (
    IsUint64 huge_event.sequence
    × IsSome (put_message cells 26 (encode_date cells) huge_event.emitted_at)
    × IsSome (put_event_payload cells huge_event.payload))
encode_event-IsSome_example = encode_event-IsSome cells cells-IsWriting huge_event
