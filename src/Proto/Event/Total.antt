-- ===== src/Proto/Event/Total.antt =====
-- Decoding ends on every input: the message Event of meta/v1/events.ts and its union.
use meta_go.Wire.{Wire}
use meta_go.Wire.Laws.{WireLaws}
use meta_go.Wire.Bounded.{IsForward, decode_embedded-Within, set_by-Within, set_message-Within}
use meta_go.Proto.Google.{create_base_timestamp, timestamp_cases}
use meta_go.Proto.Google.Total.{timestamp-IsForward}
use meta_go.Proto.Notice.{
  create_base_ready_event, ready_event_cases, create_base_reconnected_event,
  reconnected_event_cases, create_base_disconnected_event, disconnected_event_cases,
  create_base_error_event, error_event_cases, create_base_message_event, message_event_cases,
  create_base_thread_update_event, thread_update_event_cases, create_base_thread_system_event,
  thread_system_event_cases, create_base_e2ee_ready_event, e2ee_ready_event_cases,
}
use meta_go.Proto.Notice.Total.{
  ready_event-IsForward, reconnected_event-IsForward, disconnected_event-IsForward,
  error_event-IsForward, message_event-IsForward, thread_update_event-IsForward,
  thread_system_event-IsForward, e2ee_ready_event-IsForward,
}
use meta_go.Proto.Activity.{
  create_base_reaction_event, reaction_event_cases, create_base_typing_event, typing_event_cases,
  create_base_read_receipt_event, read_receipt_event_cases, create_base_delivery_receipt_event,
  delivery_receipt_event_cases, create_base_message_edit_event, message_edit_event_cases,
  create_base_message_unsend_event, message_unsend_event_cases, create_base_e2ee_receipt_event,
  e2ee_receipt_event_cases,
}
use meta_go.Proto.Activity.Total.{
  reaction_event-IsForward, typing_event-IsForward, read_receipt_event-IsForward,
  delivery_receipt_event-IsForward, message_edit_event-IsForward, message_unsend_event-IsForward,
  e2ee_receipt_event-IsForward,
}
use meta_go.Proto.Event.{event_cases}

module _ {Byte : Type 0} (w : Wire Byte) (laws : WireLaws w) where
  pub event-IsForward : IsForward (event_cases w)
  unfolding event_cases
  event-IsForward = (
    set_by-Within _ _ laws.string_forward,
    (
      set_by-Within _ _ laws.uint64_forward,
      (
        set_message-Within _ _ (
            decode_embedded-Within w laws (timestamp_cases w) (timestamp-IsForward w laws)
              create_base_timestamp),
        (
          set_message-Within _ _ (
              decode_embedded-Within w laws (ready_event_cases w) (ready_event-IsForward w laws)
                create_base_ready_event),
          (
            set_message-Within _ _ (
                decode_embedded-Within w laws (reconnected_event_cases w)
                  (reconnected_event-IsForward w laws) create_base_reconnected_event),
            (
              set_message-Within _ _ (
                  decode_embedded-Within w laws (disconnected_event_cases w)
                    (disconnected_event-IsForward w laws) create_base_disconnected_event),
              (
                set_message-Within _ _ (
                    decode_embedded-Within w laws (error_event_cases w)
                      (error_event-IsForward w laws) create_base_error_event),
                (
                  set_message-Within _ _ (
                      decode_embedded-Within w laws (message_event_cases w)
                        (message_event-IsForward w laws) create_base_message_event),
                  (
                    set_message-Within _ _ (
                        decode_embedded-Within w laws (reaction_event_cases w)
                          (reaction_event-IsForward w laws) create_base_reaction_event),
                    (
                      set_message-Within _ _ (
                          decode_embedded-Within w laws (typing_event_cases w)
                            (typing_event-IsForward w laws) create_base_typing_event),
                      (
                        set_message-Within _ _ (
                            decode_embedded-Within w laws (read_receipt_event_cases w)
                              (read_receipt_event-IsForward w laws) create_base_read_receipt_event),
                        (
                          set_message-Within _ _ (
                              decode_embedded-Within w laws (delivery_receipt_event_cases w)
                                (delivery_receipt_event-IsForward w laws)
                                create_base_delivery_receipt_event),
                          (
                            set_message-Within _ _ (
                                decode_embedded-Within w laws (message_edit_event_cases w)
                                  (message_edit_event-IsForward w laws)
                                  create_base_message_edit_event),
                            (
                              set_message-Within _ _ (
                                  decode_embedded-Within w laws (message_unsend_event_cases w)
                                    (message_unsend_event-IsForward w laws)
                                    create_base_message_unsend_event),
                              (
                                set_message-Within _ _ (
                                    decode_embedded-Within w laws (thread_update_event_cases w)
                                      (thread_update_event-IsForward w laws)
                                      create_base_thread_update_event),
                                (
                                  set_message-Within _ _ (
                                      decode_embedded-Within w laws (e2ee_ready_event_cases w)
                                        (e2ee_ready_event-IsForward w laws)
                                        create_base_e2ee_ready_event),
                                  (
                                    set_message-Within _ _ (
                                        decode_embedded-Within w laws (e2ee_receipt_event_cases w)
                                          (e2ee_receipt_event-IsForward w laws)
                                          create_base_e2ee_receipt_event),
                                    (
                                      set_message-Within _ _ (
                                          decode_embedded-Within w laws
                                            (thread_system_event_cases w)
                                            (thread_system_event-IsForward w laws)
                                            create_base_thread_system_event),
                                      tt,
                                    ),
                                  ),
                                ),
                              ),
                            ),
                          ),
                        ),
                      ),
                    ),
                  ),
                ),
              ),
            ),
          ),
        ),
      ),
    ),
  )
