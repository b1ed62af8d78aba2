-- ===== src/Proto/Event/RoundTrip.antt =====
-- Decoding takes back what encoding wrote: the message Event of meta/v1/events.ts and its union.
use meta_go.Prelude.{ℕ, suc, refl, Option, none, some, pos}
use meta_go.Wire.{Wire}
use meta_go.Wire.Laws.{WireLaws}
use meta_go.Wire.Encode.{ForSome}
use meta_go.Wire.Fields.{
  Writes, Writes-nothing, Writes-both, Writes-embedded, Writes-string, Writes-uint64,
}
use meta_go.Proto.Notice.{
  create_base_ready_event, encode_ready_event, ready_event_cases, create_base_reconnected_event,
  encode_reconnected_event, reconnected_event_cases, create_base_disconnected_event,
  encode_disconnected_event, disconnected_event_cases, create_base_error_event, encode_error_event,
  error_event_cases, create_base_message_event, encode_message_event, message_event_cases,
  create_base_thread_update_event, encode_thread_update_event, thread_update_event_cases,
  create_base_thread_system_event, encode_thread_system_event, thread_system_event_cases,
  create_base_e2ee_ready_event, encode_e2ee_ready_event, e2ee_ready_event_cases,
}
use meta_go.Proto.Activity.{
  create_base_reaction_event, encode_reaction_event, reaction_event_cases, create_base_typing_event,
  encode_typing_event, typing_event_cases, create_base_read_receipt_event,
  encode_read_receipt_event, read_receipt_event_cases, create_base_delivery_receipt_event,
  encode_delivery_receipt_event, delivery_receipt_event_cases, create_base_message_edit_event,
  encode_message_edit_event, message_edit_event_cases, create_base_message_unsend_event,
  encode_message_unsend_event, message_unsend_event_cases, create_base_e2ee_receipt_event,
  encode_e2ee_receipt_event, e2ee_receipt_event_cases,
}
use meta_go.Proto.Event.{
  Event, create_base_event, encode_event, event_cases, IsValidEvent, EventPayload,
  put_event_payload, ready, reconnected, disconnected, error, message, reaction, typing,
  read_receipt, delivery_receipt, message_edit, message_unsend, thread_update, e2ee_ready,
  e2ee_receipt, thread_system, IsValidEventPayload,
}
use meta_go.Proto.Google.RoundTrip.{Writes-date}
use meta_go.Proto.Notice.RoundTrip.{
  ready_event_reads, reconnected_event_reads, disconnected_event_reads, error_event_reads,
  message_event_reads, thread_update_event_reads, thread_system_event_reads, e2ee_ready_event_reads,
}
use meta_go.Proto.Activity.RoundTrip.{
  reaction_event_reads, typing_event_reads, read_receipt_event_reads, delivery_receipt_event_reads,
  message_edit_event_reads, message_unsend_event_reads, e2ee_receipt_event_reads,
}

module _ {Byte : Type 0} (w : Wire Byte) (laws : WireLaws w) where
  event_payload_reads :
      (k : ℕ) (m : Event) (o : Option EventPayload)
      → ForSome IsValidEventPayload o
      → Writes w laws
          (event_cases w)
          (suc (suc (suc (suc k))))
          (put_event_payload w o)
          (record m { payload = none })
          (record m { payload = o })
  unfolding put_event_payload event_cases
  event_payload_reads k m none h =
      Writes-nothing w laws (event_cases w) (suc (suc (suc (suc k)))) (record m { payload = none })
  event_payload_reads k m (some (ready v)) h =
      Writes-embedded w laws (event_cases w) (ready_event_cases w) create_base_ready_event v
        (suc (suc (suc k))) 82 (encode_ready_event w v) _ (record m { payload = none })
        (ready_event_reads w laws (suc (suc (suc k))) v) refl
  event_payload_reads k m (some (reconnected v)) h =
      Writes-embedded w laws (event_cases w) (reconnected_event_cases w)
        create_base_reconnected_event v (suc (suc (suc k))) 90 (encode_reconnected_event w v) _
        (record m { payload = none }) (reconnected_event_reads w laws (suc (suc (suc k))) v) refl
  event_payload_reads k m (some (disconnected v)) h =
      Writes-embedded w laws (event_cases w) (disconnected_event_cases w)
        create_base_disconnected_event v (suc (suc (suc k))) 98 (encode_disconnected_event w v) _
        (record m { payload = none }) (disconnected_event_reads w laws (suc (suc (suc k))) v) refl
  event_payload_reads k m (some (error v)) h =
      Writes-embedded w laws (event_cases w) (error_event_cases w) create_base_error_event v
        (suc (suc (suc k))) 106 (encode_error_event w v) _ (record m { payload = none })
        (error_event_reads w laws (suc k) v h) refl
  event_payload_reads k m (some (message v)) h =
      Writes-embedded w laws (event_cases w) (message_event_cases w) create_base_message_event v
        (suc (suc (suc k))) 114 (encode_message_event w v) _ (record m { payload = none })
        (message_event_reads w laws k v) refl
  event_payload_reads k m (some (reaction v)) h =
      Writes-embedded w laws (event_cases w) (reaction_event_cases w) create_base_reaction_event v
        (suc (suc (suc k))) 122 (encode_reaction_event w v) _ (record m { payload = none })
        (reaction_event_reads w laws (suc (suc (suc k))) v) refl
  event_payload_reads k m (some (typing v)) h =
      Writes-embedded w laws (event_cases w) (typing_event_cases w) create_base_typing_event v
        (suc (suc (suc k))) 130 (encode_typing_event w v) _ (record m { payload = none })
        (typing_event_reads w laws (suc (suc (suc k))) v) refl
  event_payload_reads k m (some (read_receipt v)) h =
      Writes-embedded w laws (event_cases w) (read_receipt_event_cases w)
        create_base_read_receipt_event v (suc (suc (suc k))) 138 (encode_read_receipt_event w v) _
        (record m { payload = none }) (read_receipt_event_reads w laws (suc (suc k)) v) refl
  event_payload_reads k m (some (delivery_receipt v)) h =
      Writes-embedded w laws (event_cases w) (delivery_receipt_event_cases w)
        create_base_delivery_receipt_event v (suc (suc (suc k))) 146
        (encode_delivery_receipt_event w v) _ (record m { payload = none })
        (delivery_receipt_event_reads w laws (suc (suc k)) v) refl
  event_payload_reads k m (some (message_edit v)) h =
      Writes-embedded w laws (event_cases w) (message_edit_event_cases w)
        create_base_message_edit_event v (suc (suc (suc k))) 154 (encode_message_edit_event w v) _
        (record m { payload = none }) (message_edit_event_reads w laws (suc (suc (suc k))) v) refl
  event_payload_reads k m (some (message_unsend v)) h =
      Writes-embedded w laws (event_cases w) (message_unsend_event_cases w)
        create_base_message_unsend_event v (suc (suc (suc k))) 162 (encode_message_unsend_event w v)
        _ (record m { payload = none }) (message_unsend_event_reads w laws (suc (suc (suc k))) v)
        refl
  event_payload_reads k m (some (thread_update v)) h =
      Writes-embedded w laws (event_cases w) (thread_update_event_cases w)
        create_base_thread_update_event v (suc (suc (suc k))) 170 (encode_thread_update_event w v) _
        (record m { payload = none }) (thread_update_event_reads w laws (suc (suc (suc k))) v) refl
  event_payload_reads k m (some (e2ee_ready v)) h =
      Writes-embedded w laws (event_cases w) (e2ee_ready_event_cases w) create_base_e2ee_ready_event
        v (suc (suc (suc k))) 178 (encode_e2ee_ready_event w v) _ (record m { payload = none })
        (e2ee_ready_event_reads w laws (suc (suc (suc k))) v) refl
  event_payload_reads k m (some (e2ee_receipt v)) h =
      Writes-embedded w laws (event_cases w) (e2ee_receipt_event_cases w)
        create_base_e2ee_receipt_event v (suc (suc (suc k))) 186 (encode_e2ee_receipt_event w v) _
        (record m { payload = none }) (e2ee_receipt_event_reads w laws (suc (suc (suc k))) v) refl
  event_payload_reads k m (some (thread_system v)) h =
      Writes-embedded w laws (event_cases w) (thread_system_event_cases w)
        create_base_thread_system_event v (suc (suc (suc k))) 194 (encode_thread_system_event w v) _
        (record m { payload = none }) (thread_system_event_reads w laws (suc (suc (suc k))) v) refl

  pub event_reads :
      (k : ℕ) (m : Event)
      → IsValidEvent m
      → Writes w laws
          (event_cases w)
          (suc (suc (suc (suc k))))
          (encode_event w m)
          create_base_event
          m
  unfolding encode_event event_cases create_base_event
  event_reads k m h =
      Writes-both w laws (event_cases w) (suc (suc (suc (suc k)))) _ _ _ _ _
        (Writes-string w laws (event_cases w) (suc (suc (suc (suc k)))) 10 _
          (λ x. record m { session_id = x; sequence = pos 0; emitted_at = none; payload = none })
          m.session_id refl refl)
        (Writes-both w laws (event_cases w) (suc (suc (suc (suc k)))) _ _ _ _ _
          (Writes-uint64 w laws (event_cases w) (suc (suc (suc (suc k)))) 16 _
            (λ x. record m { sequence = x; emitted_at = none; payload = none }) m.sequence refl
            refl)
          (Writes-both w laws (event_cases w) (suc (suc (suc (suc k)))) _ _ _ _ _
            (Writes-date w laws (event_cases w) (suc (suc (suc k))) 26 _
              (λ x. record m { emitted_at = x; payload = none }) m.emitted_at refl (λ x. refl))
            (Writes-both w laws (event_cases w) (suc (suc (suc (suc k)))) _ _ _ _ _
              (event_payload_reads k
                (record {
                  session_id = m.session_id;
                  sequence = m.sequence;
                  emitted_at = m.emitted_at;
                  payload = none;
                })
                m.payload h)
              (Writes-nothing w laws (event_cases w) (suc (suc (suc (suc k)))) m))))
