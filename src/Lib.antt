-- ===== src/Lib.antt =====
-- The SDK for Node of this repository (sdk/node/src): a client of the meta runtime, which is another process
-- that speaks gRPC. The client finds and starts the runtime, signs sessions in, and hands out the events of a
-- session to listeners and asynchronous iterators; generated code turns messages into bytes and back.
--
-- Parts, and the files of the repository that they are about:
-- - Prelude: names of the libraries, lists over native numbers, Boolean tests, integers.
-- - Errors: sdk/node/src/errors.ts. `JsError` has a constructor for each class, `error_middleware` is
--   errorMiddleware; a call that may throw returns a `Result`.
-- - Queue: class EventQueue of sdk/node/src/events.ts. `push`, `next`, `close` and `fail` are its methods, and
--   return the promises that they settle. Queue.Invariant, Queue.Delivery and Queue.Promises are about
--   histories of calls.
-- - Stream: class EventStream of the same file. Each method, each round of `pump` and each step of an iterator
--   between two awaits is a function on the state `Stream`; `Action` and `act` put them together. When a
--   listener throws, the wait for `source.return()` comes between the round and the `catch` (`leaving`,
--   `returned`). Each iterator's queue is a `Queue`; Stream.Listeners is the Map of listeners.
-- - Wire: the statements that all generated files share (sdk/node/src/gen), over a record of the writer's and
--   reader's methods of @bufbuild/protobuf/wire. Wire.Laws names what the methods must satisfy: each reader
--   method undoes the writer method of its kind, and takes bytes off the front. Tests.Cells meets the laws.
--   Wire.Objects is the assignment to a map's object, with the order of its keys in Wire.Keys.
-- - Proto: the messages of sdk/node/src/gen/meta/v1/common.ts, events.ts, session.ts, runtime.ts and health.ts
--   and of gen/google/protobuf that reach the event stream, the session calls and the description of the
--   runtime. For a message M, `encode_m` is M.encode, `m_cases` is the switch of M.decode, `create_base_m` is
--   createBaseM, and a oneof is a data type. Proto.Time has toTimestamp and fromTimestamp. The children
--   RoundTrip and, for what an event holds, Total have a group's lemmas; Proto.Codec puts whole messages
--   together, and Proto.Event.Refused is about the exceptions of Event.encode.
-- - Client: class MetaClient and the functions of sdk/node/src/client.ts. Client.Auth has sessionAuthToProto and
--   authSnapshotFromProto, Client.Timeout durationFromMilliseconds, Client.Calls the calls that check
--   capabilities, and Client.Lifecycle `create`, `events` and `close` with the Set of the client's streams,
--   each of them a `Stream`. The services are a parameter.
-- - Runtime: Runtime.Bootstrap is readBootstrap, Runtime.Stderr the collector of error output, and
--   Runtime.Process the rest of class ManagedRuntime, in sdk/node/src/runtime.ts; Runtime.Distribution is
--   sdk/node/src/distribution.ts and runtime-package.ts. The parser of JSON, Node's module resolution, file
--   access and path.join are parameters.
-- - Tests: concrete inputs.
--
-- Bounds. Numbers are native and unbounded; where the code tests a width (uint64, int64, 64 KiB, 16 KiB,
-- a depth of 100) the test is in the definition. The loop of decode runs on fuel, one more than the bytes that
-- are left: each round reads a tag, which takes a byte at least, so the fuel suffices. All other loops are
-- structural. A timeout's quotient by 1000 is rounded as a double: 52 and 1024 doublings reach the unit in
-- the last place of every double from 1 on, and below 1 the quotient truncates to 0.
--
-- Not modelled: fromJSON, toJSON, create and fromPartial of messages, the messages of e2ee.ts, facebook.ts and
-- messenger.ts, gRPC itself, the arguments and the environment of the runtime's process, listeners that call
-- back into the stream that calls them, and the code in other languages.
pub mod Prelude
pub mod Errors
pub mod Queue
pub mod Wire
pub mod Proto
pub mod Stream
pub mod Client
pub mod Runtime
pub mod Tests
