-- ===== src/Proto/Activity/Total.antt =====
-- Decoding ends on every input: the events of meta/v1/events.ts about one message or reader.
use meta_go.Wire.{Wire}
use meta_go.Wire.Laws.{WireLaws}
use meta_go.Wire.Bounded.{IsForward, decode_embedded-Within, set_by-Within, set_message-Within}
use meta_go.Proto.Google.{create_base_timestamp, timestamp_cases}
use meta_go.Proto.Google.Total.{timestamp-IsForward}
use meta_go.Proto.Activity.{
  reaction_event_cases, typing_event_cases, read_receipt_event_cases, delivery_receipt_event_cases,
  message_edit_event_cases, message_unsend_event_cases, e2ee_receipt_event_cases,
}

module _ {Byte : Type 0} (w : Wire Byte) (laws : WireLaws w) where
  pub reaction_event-IsForward : IsForward (reaction_event_cases w)
  unfolding reaction_event_cases
  reaction_event-IsForward = (
    set_by-Within _ _ laws.string_forward,
    (
      set_by-Within _ _ laws.string_forward,
      (set_by-Within _ _ laws.string_forward, (set_by-Within _ _ laws.string_forward, tt)),
    ),
  )

  pub typing_event-IsForward : IsForward (typing_event_cases w)
  unfolding typing_event_cases
  typing_event-IsForward = (
    set_by-Within _ _ laws.string_forward,
    (set_by-Within _ _ laws.string_forward, (set_by-Within _ _ laws.bool_forward, tt)),
  )

  pub read_receipt_event-IsForward : IsForward (read_receipt_event_cases w)
  unfolding read_receipt_event_cases
  read_receipt_event-IsForward = (
    set_by-Within _ _ laws.string_forward,
    (
      set_by-Within _ _ laws.string_forward,
      (
        set_message-Within _ _ (
            decode_embedded-Within w laws (timestamp_cases w) (timestamp-IsForward w laws)
              create_base_timestamp),
        tt,
      ),
    ),
  )

  pub delivery_receipt_event-IsForward : IsForward (delivery_receipt_event_cases w)
  unfolding delivery_receipt_event_cases
  delivery_receipt_event-IsForward = (
    set_by-Within _ _ laws.string_forward,
    (
      set_by-Within _ _ laws.string_forward,
      (
        set_message-Within _ _ (
            decode_embedded-Within w laws (timestamp_cases w) (timestamp-IsForward w laws)
              create_base_timestamp),
        tt,
      ),
    ),
  )

  pub message_edit_event-IsForward : IsForward (message_edit_event_cases w)
  unfolding message_edit_event_cases
  message_edit_event-IsForward = (
    set_by-Within _ _ laws.string_forward,
    (set_by-Within _ _ laws.string_forward, (set_by-Within _ _ laws.int64_forward, tt)),
  )

  pub message_unsend_event-IsForward : IsForward (message_unsend_event_cases w)
  unfolding message_unsend_event_cases
  message_unsend_event-IsForward =
      (set_by-Within _ _ laws.string_forward, (set_by-Within _ _ laws.string_forward, tt))

  pub e2ee_receipt_event-IsForward : IsForward (e2ee_receipt_event_cases w)
  unfolding e2ee_receipt_event_cases
  e2ee_receipt_event-IsForward = (
    set_by-Within _ _ laws.string_forward,
    (
      set_by-Within _ _ laws.string_forward,
      (set_by-Within _ _ laws.string_forward, (set_by-Within _ _ laws.string_forward, tt)),
    ),
  )
