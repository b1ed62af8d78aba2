-- ===== src/Proto/Notice/RoundTrip.antt =====
-- Decoding takes back what encoding wrote: the events of meta/v1/events.ts about a connection or a thread.
use meta_go.Prelude.{ℕ, suc, refl}
use meta_go.Wire.{Wire}
use meta_go.Wire.Laws.{WireLaws}
use meta_go.Wire.Encode.{some_valid}
use meta_go.Wire.Fields.{Writes, Writes-nothing, Writes-both}
use meta_go.Wire.Defaults.{Sets-bool, Sets-int32, Sets-string}
use meta_go.Wire.Embedded.{Writes-message}
use meta_go.Proto.Common.{
  create_base_error_detail, encode_error_detail, error_detail_cases, IsValidErrorDetail,
}
use meta_go.Proto.Message.{create_base_message, encode_message, message_cases}
use meta_go.Proto.Notice.{
  ReadyEvent, create_base_ready_event, encode_ready_event, ready_event_cases, ReconnectedEvent,
  create_base_reconnected_event, encode_reconnected_event, reconnected_event_cases,
  reconnected_event, DisconnectedEvent, create_base_disconnected_event, encode_disconnected_event,
  disconnected_event_cases, ErrorEvent, create_base_error_event, encode_error_event,
  error_event_cases, IsValidErrorEvent, MessageEvent, create_base_message_event,
  encode_message_event, message_event_cases, ThreadUpdateEvent, create_base_thread_update_event,
  encode_thread_update_event, thread_update_event_cases, ThreadSystemEvent,
  create_base_thread_system_event, encode_thread_system_event, thread_system_event_cases,
  E2eeReadyEvent, create_base_e2ee_ready_event, encode_e2ee_ready_event, e2ee_ready_event_cases,
  e2ee_ready_event,
}
use meta_go.Proto.Common.RoundTrip.{error_detail_reads}
use meta_go.Proto.Message.RoundTrip.{message_reads}

module _ {Byte : Type 0} (w : Wire Byte) (laws : WireLaws w) where
  pub ready_event_reads :
      (k : ℕ) (m : ReadyEvent)
      → Writes w laws (ready_event_cases w) k (encode_ready_event w m) create_base_ready_event m
  unfolding encode_ready_event ready_event_cases create_base_ready_event
  ready_event_reads k m =
      Writes-both w laws (ready_event_cases w) k _ _ _ _ _
        (Sets-bool w laws (ready_event_cases w) k 8 _ _ m.is_new_session refl refl)
        (Writes-nothing w laws (ready_event_cases w) k m)

  pub reconnected_event_reads :
      (k : ℕ) (m : ReconnectedEvent)
      → Writes w laws
          (reconnected_event_cases w)
          k
          (encode_reconnected_event w m)
          create_base_reconnected_event
          m
  unfolding encode_reconnected_event create_base_reconnected_event
  reconnected_event_reads k reconnected_event =
      Writes-nothing w laws (reconnected_event_cases w) k reconnected_event

  pub disconnected_event_reads :
      (k : ℕ) (m : DisconnectedEvent)
      → Writes w laws
          (disconnected_event_cases w)
          k
          (encode_disconnected_event w m)
          create_base_disconnected_event
          m
  unfolding encode_disconnected_event disconnected_event_cases create_base_disconnected_event
  disconnected_event_reads k m =
      Writes-both w laws (disconnected_event_cases w) k _ _ _ _ _
        (Sets-int32 w laws (disconnected_event_cases w) k 8 _ _ m.transport refl refl)
        (Writes-nothing w laws (disconnected_event_cases w) k m)

  pub error_event_reads :
      (k : ℕ) (m : ErrorEvent)
      → IsValidErrorEvent m
      → Writes w laws
          (error_event_cases w)
          (suc (suc k))
          (encode_error_event w m)
          create_base_error_event
          m
  unfolding encode_error_event error_event_cases create_base_error_event
  error_event_reads k m h =
      Writes-both w laws (error_event_cases w) (suc (suc k)) _ _ _ _ _
        (Writes-message w laws (error_event_cases w) (suc k) 10 (error_detail_cases w)
          create_base_error_detail (encode_error_detail w) _ (λ x. record m { error = x }) m.error
          (λ x e. error_detail_reads w laws k x (some_valid IsValidErrorDetail m.error x e h)) refl
          (λ x. refl))
        (Writes-nothing w laws (error_event_cases w) (suc (suc k)) m)

  pub message_event_reads :
      (k : ℕ) (m : MessageEvent)
      → Writes w laws
          (message_event_cases w)
          (suc (suc (suc k)))
          (encode_message_event w m)
          create_base_message_event
          m
  unfolding encode_message_event message_event_cases create_base_message_event
  message_event_reads k m =
      Writes-both w laws (message_event_cases w) (suc (suc (suc k))) _ _ _ _ _
        (Writes-message w laws (message_event_cases w) (suc (suc k)) 10 (message_cases w)
          create_base_message (encode_message w) _ (λ x. record m { message = x }) m.message
          (λ x e. message_reads w laws k x) refl (λ x. refl))
        (Writes-nothing w laws (message_event_cases w) (suc (suc (suc k))) m)

  pub thread_update_event_reads :
      (k : ℕ) (m : ThreadUpdateEvent)
      → Writes w laws
          (thread_update_event_cases w)
          k
          (encode_thread_update_event w m)
          create_base_thread_update_event
          m
  unfolding encode_thread_update_event thread_update_event_cases create_base_thread_update_event
  thread_update_event_reads k m =
      Writes-both w laws (thread_update_event_cases w) k _ _ _ _ _
        (Sets-string w laws (thread_update_event_cases w) k 10 _ _ m.thread_id refl refl)
        (Writes-both w laws (thread_update_event_cases w) k _ _ _ _ _
          (Sets-string w laws (thread_update_event_cases w) k 18 _ _ m.field refl refl)
          (Writes-both w laws (thread_update_event_cases w) k _ _ _ _ _
            (Sets-string w laws (thread_update_event_cases w) k 26 _ _ m.value refl refl)
            (Writes-nothing w laws (thread_update_event_cases w) k m)))

  pub thread_system_event_reads :
      (k : ℕ) (m : ThreadSystemEvent)
      → Writes w laws
          (thread_system_event_cases w)
          k
          (encode_thread_system_event w m)
          create_base_thread_system_event
          m
  unfolding encode_thread_system_event thread_system_event_cases create_base_thread_system_event
  thread_system_event_reads k m =
      Writes-both w laws (thread_system_event_cases w) k _ _ _ _ _
        (Sets-int32 w laws (thread_system_event_cases w) k 8 _ _ m.kind refl refl)
        (Writes-both w laws (thread_system_event_cases w) k _ _ _ _ _
          (Sets-string w laws (thread_system_event_cases w) k 18 _ _ m.thread_id refl refl)
          (Writes-both w laws (thread_system_event_cases w) k _ _ _ _ _
            (Sets-string w laws (thread_system_event_cases w) k 26 _ _ m.participant_id refl refl)
            (Writes-both w laws (thread_system_event_cases w) k _ _ _ _ _
              (Sets-string w laws (thread_system_event_cases w) k 34 _ _ m.message_id refl refl)
              (Writes-both w laws (thread_system_event_cases w) k _ _ _ _ _
                (Sets-string w laws (thread_system_event_cases w) k 42 _ _ m.poll_id refl refl)
                (Writes-both w laws (thread_system_event_cases w) k _ _ _ _ _
                  (Sets-string w laws (thread_system_event_cases w) k 50 _ _ m.nickname refl refl)
                  (Writes-both w laws (thread_system_event_cases w) k _ _ _ _ _
                    (Sets-string w laws (thread_system_event_cases w) k 58 _ _ m.emoji refl refl)
                    (Writes-both w laws (thread_system_event_cases w) k _ _ _ _ _
                      (Sets-bool w laws (thread_system_event_cases w) k 64 _ _ m.enabled refl refl)
                      (Writes-both w laws (thread_system_event_cases w) k _ _ _ _ _
                        (Sets-bool w laws (thread_system_event_cases w) k 72 _ _ m.pinned refl refl)
                        (Writes-both w laws (thread_system_event_cases w) k _ _ _ _ _
                          (Sets-bool w laws (thread_system_event_cases w) k 80 _ _ m.is_admin refl
                            refl)
                          (Writes-nothing w laws (thread_system_event_cases w) k m))))))))))

  pub e2ee_ready_event_reads :
      (k : ℕ) (m : E2eeReadyEvent)
      → Writes w laws
          (e2ee_ready_event_cases w)
          k
          (encode_e2ee_ready_event w m)
          create_base_e2ee_ready_event
          m
  unfolding encode_e2ee_ready_event create_base_e2ee_ready_event
  e2ee_ready_event_reads k e2ee_ready_event =
      Writes-nothing w laws (e2ee_ready_event_cases w) k e2ee_ready_event
