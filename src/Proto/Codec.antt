-- ===== src/Proto/Codec.antt =====
-- `encode` and `decode` of whole messages: the event stream, the calls of a session, and the answers
-- of the runtime. `decode` is called here as `M.decode(bytes)`.
use meta_go.Prelude.{◌≡◌, List, [], ◌++◌, none, some, length, arith, ℕ}
use meta_go.Wire.{Wire, Read, got, stuck, decode_all, select}
use meta_go.Wire.Laws.{WireLaws}
use meta_go.Wire.Reads.{reader, Reads-append, Reads-decode_all}
use meta_go.Wire.Bounded.{decode_all-ne-stuck}
use meta_go.Wire.Unknown.{IsField, Reads-unknown}
use meta_go.Proto.Event.{Event, create_base_event, encode_event, event_cases, IsValidEvent}
use meta_go.Proto.Event.RoundTrip.{event_reads}
use meta_go.Proto.Event.Total.{event-IsForward}
use meta_go.Proto.Session.{
  SubscribeEventsResponse, create_base_subscribe_events_response, encode_subscribe_events_response,
  subscribe_events_response_cases, IsValidSubscribeEventsResponse,
}
use meta_go.Proto.Session.RoundTrip.{subscribe_events_response_reads}
use meta_go.Proto.Session.{
  CreateSessionRequest, create_base_create_session_request, encode_create_session_request,
  create_session_request_cases, IsValidCreateSessionRequest,
}
use meta_go.Proto.Session.RoundTrip.{create_session_request_reads}
use meta_go.Proto.Snapshot.{
  GetAuthSnapshotResponse, create_base_get_auth_snapshot_response,
  encode_get_auth_snapshot_response, get_auth_snapshot_response_cases,
  IsValidGetAuthSnapshotResponse,
}
use meta_go.Proto.Snapshot.RoundTrip.{get_auth_snapshot_response_reads}
use meta_go.Proto.Info.{
  GetInfoResponse, create_base_get_info_response, encode_get_info_response, get_info_response_cases,
}
use meta_go.Proto.Info.RoundTrip.{get_info_response_reads}
use meta_go.Proto.Info.{
  GetHealthResponse, create_base_get_health_response, encode_get_health_response,
  get_health_response_cases,
}
use meta_go.Proto.Info.RoundTrip.{get_health_response_reads}

module _ {Byte : Type 0} (w : Wire Byte) where
  unfoldable pub decode_event : List Byte → Read Byte Event
  decode_event = decode_all w (event_cases w) create_base_event

  unfoldable pub decode_subscribe_events_response : List Byte → Read Byte SubscribeEventsResponse
  decode_subscribe_events_response =
      decode_all w (subscribe_events_response_cases w) create_base_subscribe_events_response

  unfoldable pub decode_create_session_request : List Byte → Read Byte CreateSessionRequest
  decode_create_session_request =
      decode_all w (create_session_request_cases w) create_base_create_session_request

  unfoldable pub decode_get_auth_snapshot_response : List Byte → Read Byte GetAuthSnapshotResponse
  decode_get_auth_snapshot_response =
      decode_all w (get_auth_snapshot_response_cases w) create_base_get_auth_snapshot_response

  unfoldable pub decode_get_info_response : List Byte → Read Byte GetInfoResponse
  decode_get_info_response = decode_all w (get_info_response_cases w) create_base_get_info_response

  unfoldable pub decode_get_health_response : List Byte → Read Byte GetHealthResponse
  decode_get_health_response =
      decode_all w (get_health_response_cases w) create_base_get_health_response

module _ {Byte : Type 0} (w : Wire Byte) (laws : WireLaws w) where
  -- With a reader and a writer that meet the laws of the wire: if an event of any of the fifteen
  -- kinds can be encoded at all, and its objects list their entries in the order of `Object.entries`
  -- and have no own key `__proto__`, then decoding the bytes gives the message back and consumes
  -- them to the end.
  pub decode_event-encode_event :
      (m : Event) (b : List Byte)
      → IsValidEvent m
      → encode_event w m ≡ some b
      → decode_event w b ≡ got m (reader (length b) [] 0)
  unfolding decode_event
  decode_event-encode_event m b v e =
      Reads-decode_all w laws (event_cases w) 4 b create_base_event m (event_reads w laws 0 m v b e)
        (omega arith)

  -- With a reader and a writer that meet the laws of the wire: if an answer of the event stream can
  -- be encoded at all, and its objects list their entries in the order of `Object.entries` and have
  -- no own key `__proto__`, then decoding the bytes gives the message back and consumes them to the
  -- end.
  pub decode_subscribe_events_response-encode_subscribe_events_response :
      (m : SubscribeEventsResponse) (b : List Byte)
      → IsValidSubscribeEventsResponse m
      → encode_subscribe_events_response w m ≡ some b
      → decode_subscribe_events_response w b ≡ got m (reader (length b) [] 0)
  unfolding decode_subscribe_events_response
  decode_subscribe_events_response-encode_subscribe_events_response m b v e =
      Reads-decode_all w laws (subscribe_events_response_cases w) 5 b
        create_base_subscribe_events_response m (subscribe_events_response_reads w laws 0 m v b e)
        (omega arith)

  -- With a reader and a writer that meet the laws of the wire: if a request for a session can be
  -- encoded at all, and its objects list their entries in the order of `Object.entries` and have no
  -- own key `__proto__`, then decoding the bytes gives the message back and consumes them to the
  -- end.
  pub decode_create_session_request-encode_create_session_request :
      (m : CreateSessionRequest) (b : List Byte)
      → IsValidCreateSessionRequest m
      → encode_create_session_request w m ≡ some b
      → decode_create_session_request w b ≡ got m (reader (length b) [] 0)
  unfolding decode_create_session_request
  decode_create_session_request-encode_create_session_request m b v e =
      Reads-decode_all w laws (create_session_request_cases w) 3 b
        create_base_create_session_request m (create_session_request_reads w laws 0 m v b e)
        (omega arith)

  -- With a reader and a writer that meet the laws of the wire: if a snapshot of a session can be
  -- encoded at all, and its objects list their entries in the order of `Object.entries` and have no
  -- own key `__proto__`, then decoding the bytes gives the message back and consumes them to the
  -- end.
  pub decode_get_auth_snapshot_response-encode_get_auth_snapshot_response :
      (m : GetAuthSnapshotResponse) (b : List Byte)
      → IsValidGetAuthSnapshotResponse m
      → encode_get_auth_snapshot_response w m ≡ some b
      → decode_get_auth_snapshot_response w b ≡ got m (reader (length b) [] 0)
  unfolding decode_get_auth_snapshot_response
  decode_get_auth_snapshot_response-encode_get_auth_snapshot_response m b v e =
      Reads-decode_all w laws (get_auth_snapshot_response_cases w) 3 b
        create_base_get_auth_snapshot_response m (get_auth_snapshot_response_reads w laws 0 m v b e)
        (omega arith)

  -- With a reader and a writer that meet the laws of the wire: if the description of the runtime
  -- can be encoded at all, then decoding the bytes gives the message back and consumes them to the
  -- end.
  pub decode_get_info_response-encode_get_info_response :
      (m : GetInfoResponse) (b : List Byte)
      → encode_get_info_response w m ≡ some b
      → decode_get_info_response w b ≡ got m (reader (length b) [] 0)
  unfolding decode_get_info_response
  decode_get_info_response-encode_get_info_response m b e =
      Reads-decode_all w laws (get_info_response_cases w) 1 b create_base_get_info_response m
        (get_info_response_reads w laws 0 m b e) (omega arith)

  -- With a reader and a writer that meet the laws of the wire: if a health report can be encoded at
  -- all, then decoding the bytes gives the message back and consumes them to the end.
  pub decode_get_health_response-encode_get_health_response :
      (m : GetHealthResponse) (b : List Byte)
      → encode_get_health_response w m ≡ some b
      → decode_get_health_response w b ≡ got m (reader (length b) [] 0)
  unfolding decode_get_health_response
  decode_get_health_response-encode_get_health_response m b e =
      Reads-decode_all w laws (get_health_response_cases w) 2 b create_base_get_health_response m
        (get_health_response_reads w laws 0 m b e) (omega arith)

  -- With a reader that meets the laws of the wire, decoding any input as an event of any of the
  -- fifteen kinds ends: it returns or throws, on malformed input too.
  pub decode_event-ne-stuck : (input : List Byte) → ¬ (decode_event w input ≡ stuck)
  unfolding decode_event
  decode_event-ne-stuck input =
      decode_all-ne-stuck w laws (event_cases w) (event-IsForward w laws) create_base_event input

  -- With a reader and a writer that meet the laws of the wire: behind the encoding of an event whose
  -- objects list their entries in the order of `Object.entries` and have no own key `__proto__`, a
  -- well-formed field with a tag that no case of the event's switch takes changes nothing: decoding
  -- gives the event back and consumes the bytes to the end.
  pub decode_event_ignores_unknown :
      (m : Event) (b u : List Byte) (tag : ℕ)
      → IsValidEvent m
      → encode_event w m ≡ some b
      → IsField w tag u
      → select tag (event_cases w) ≡ none
      → decode_event w (b ++ u) ≡ got m (reader (length (b ++ u)) [] 0)
  unfolding decode_event
  decode_event_ignores_unknown m b u tag v e f sel =
      Reads-decode_all w laws (event_cases w) 4 (b ++ u) create_base_event m
        (Reads-append w laws (event_cases w) 4 b u create_base_event m m
          (event_reads w laws 0 m v b e) (Reads-unknown w laws (event_cases w) 4 tag u m f sel))
        (omega arith)
