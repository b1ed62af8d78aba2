-- ===== src/Proto/Notice/Total.antt =====
-- Decoding ends on every input: the events of meta/v1/events.ts about a connection or a thread.
use meta_go.Wire.{Wire}
use meta_go.Wire.Laws.{WireLaws}
use meta_go.Wire.Bounded.{IsForward, decode_embedded-Within, set_by-Within, set_message-Within}
use meta_go.Proto.Common.{create_base_error_detail, error_detail_cases}
use meta_go.Proto.Common.Total.{error_detail-IsForward}
use meta_go.Proto.Message.{create_base_message, message_cases}
use meta_go.Proto.Message.Total.{message-IsForward}
use meta_go.Proto.Notice.{
  ready_event_cases, reconnected_event_cases, disconnected_event_cases, error_event_cases,
  message_event_cases, thread_update_event_cases, thread_system_event_cases, e2ee_ready_event_cases,
}

module _ {Byte : Type 0} (w : Wire Byte) (laws : WireLaws w) where
  pub ready_event-IsForward : IsForward (ready_event_cases w)
  unfolding ready_event_cases
  ready_event-IsForward = (set_by-Within _ _ laws.bool_forward, tt)

  pub reconnected_event-IsForward : IsForward (reconnected_event_cases w)
  unfolding reconnected_event_cases
  reconnected_event-IsForward = tt

  pub disconnected_event-IsForward : IsForward (disconnected_event_cases w)
  unfolding disconnected_event_cases
  disconnected_event-IsForward = (set_by-Within _ _ laws.int32_forward, tt)

  pub error_event-IsForward : IsForward (error_event_cases w)
  unfolding error_event_cases
  error_event-IsForward = (
    set_message-Within _ _ (
        decode_embedded-Within w laws (error_detail_cases w) (error_detail-IsForward w laws)
          create_base_error_detail),
    tt,
  )

  pub message_event-IsForward : IsForward (message_event_cases w)
  unfolding message_event_cases
  message_event-IsForward = (
    set_message-Within _ _ (
        decode_embedded-Within w laws (message_cases w) (message-IsForward w laws)
          create_base_message),
    tt,
  )

  pub thread_update_event-IsForward : IsForward (thread_update_event_cases w)
  unfolding thread_update_event_cases
  thread_update_event-IsForward = (
    set_by-Within _ _ laws.string_forward,
    (set_by-Within _ _ laws.string_forward, (set_by-Within _ _ laws.string_forward, tt)),
  )

  pub thread_system_event-IsForward : IsForward (thread_system_event_cases w)
  unfolding thread_system_event_cases
  thread_system_event-IsForward = (
    set_by-Within _ _ laws.int32_forward,
    (
      set_by-Within _ _ laws.string_forward,
      (
        set_by-Within _ _ laws.string_forward,
        (
          set_by-Within _ _ laws.string_forward,
          (
            set_by-Within _ _ laws.string_forward,
            (
              set_by-Within _ _ laws.string_forward,
              (
                set_by-Within _ _ laws.string_forward,
                (
                  set_by-Within _ _ laws.bool_forward,
                  (set_by-Within _ _ laws.bool_forward, (set_by-Within _ _ laws.bool_forward, tt)),
                ),
              ),
            ),
          ),
        ),
      ),
    ),
  )

  pub e2ee_ready_event-IsForward : IsForward (e2ee_ready_event_cases w)
  unfolding e2ee_ready_event_cases
  e2ee_ready_event-IsForward = tt
