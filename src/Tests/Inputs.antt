-- ===== src/Tests/Inputs.antt =====
-- Events and bytes that the tests share.
use meta_go.Prelude.{List, Option, none, some, true, pos}
use meta_go.Proto.Event.{Event, typing, encode_event}
use meta_go.Tests.Cells.{Cell, cells}

abbrev pub typing_event : Event
typing_event = record {
  session_id = "s";
  sequence = pos 5;
  emitted_at = none;
  payload = some (typing (record { thread_id = "t"; sender_id = "u"; typing = true }));
}

abbrev pub bare_event : Event
bare_event = record { session_id = ""; sequence = pos 6; emitted_at = none; payload = none }

abbrev encoded : Option (List Cell)
encoded = encode_event cells typing_event
