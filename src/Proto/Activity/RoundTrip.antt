-- ===== src/Proto/Activity/RoundTrip.antt =====
-- Decoding takes back what encoding wrote: the events of meta/v1/events.ts about one message or reader.
use meta_go.Prelude.{ℕ, suc, refl}
use meta_go.Wire.{Wire}
use meta_go.Wire.Laws.{WireLaws}
use meta_go.Wire.Fields.{Writes, Writes-nothing, Writes-both, Writes-strings}
use meta_go.Wire.Defaults.{Sets-bool, Sets-int64, Sets-string}
use meta_go.Proto.Activity.{
  ReactionEvent, create_base_reaction_event, encode_reaction_event, reaction_event_cases,
  TypingEvent, create_base_typing_event, encode_typing_event, typing_event_cases, ReadReceiptEvent,
  create_base_read_receipt_event, encode_read_receipt_event, read_receipt_event_cases,
  DeliveryReceiptEvent, create_base_delivery_receipt_event, encode_delivery_receipt_event,
  delivery_receipt_event_cases, MessageEditEvent, create_base_message_edit_event,
  encode_message_edit_event, message_edit_event_cases, MessageUnsendEvent,
  create_base_message_unsend_event, encode_message_unsend_event, message_unsend_event_cases,
  E2eeReceiptEvent, create_base_e2ee_receipt_event, encode_e2ee_receipt_event,
  e2ee_receipt_event_cases,
}
use meta_go.Proto.Google.RoundTrip.{Writes-date}

module _ {Byte : Type 0} (w : Wire Byte) (laws : WireLaws w) where
  pub reaction_event_reads :
      (k : ℕ) (m : ReactionEvent)
      → Writes w laws
          (reaction_event_cases w)
          k
          (encode_reaction_event w m)
          create_base_reaction_event
          m
  unfolding encode_reaction_event reaction_event_cases create_base_reaction_event
  reaction_event_reads k m =
      Writes-both w laws (reaction_event_cases w) k _ _ _ _ _
        (Sets-string w laws (reaction_event_cases w) k 10 _ _ m.message_id refl refl)
        (Writes-both w laws (reaction_event_cases w) k _ _ _ _ _
          (Sets-string w laws (reaction_event_cases w) k 18 _ _ m.thread_id refl refl)
          (Writes-both w laws (reaction_event_cases w) k _ _ _ _ _
            (Sets-string w laws (reaction_event_cases w) k 26 _ _ m.actor_id refl refl)
            (Writes-both w laws (reaction_event_cases w) k _ _ _ _ _
              (Sets-string w laws (reaction_event_cases w) k 34 _ _ m.reaction refl refl)
              (Writes-nothing w laws (reaction_event_cases w) k m))))

  pub typing_event_reads :
      (k : ℕ) (m : TypingEvent)
      → Writes w laws (typing_event_cases w) k (encode_typing_event w m) create_base_typing_event m
  unfolding encode_typing_event typing_event_cases create_base_typing_event
  typing_event_reads k m =
      Writes-both w laws (typing_event_cases w) k _ _ _ _ _
        (Sets-string w laws (typing_event_cases w) k 10 _ _ m.thread_id refl refl)
        (Writes-both w laws (typing_event_cases w) k _ _ _ _ _
          (Sets-string w laws (typing_event_cases w) k 18 _ _ m.sender_id refl refl)
          (Writes-both w laws (typing_event_cases w) k _ _ _ _ _
            (Sets-bool w laws (typing_event_cases w) k 24 _ _ m.typing refl refl)
            (Writes-nothing w laws (typing_event_cases w) k m)))

  pub read_receipt_event_reads :
      (k : ℕ) (m : ReadReceiptEvent)
      → Writes w laws
          (read_receipt_event_cases w)
          (suc k)
          (encode_read_receipt_event w m)
          create_base_read_receipt_event
          m
  unfolding encode_read_receipt_event read_receipt_event_cases create_base_read_receipt_event
  read_receipt_event_reads k m =
      Writes-both w laws (read_receipt_event_cases w) (suc k) _ _ _ _ _
        (Sets-string w laws (read_receipt_event_cases w) (suc k) 10 _ _ m.thread_id refl refl)
        (Writes-both w laws (read_receipt_event_cases w) (suc k) _ _ _ _ _
          (Sets-string w laws (read_receipt_event_cases w) (suc k) 18 _ _ m.reader_id refl refl)
          (Writes-both w laws (read_receipt_event_cases w) (suc k) _ _ _ _ _
            (Writes-date w laws (read_receipt_event_cases w) k 26 _
              (λ x. record m { watermark = x }) m.watermark refl (λ x. refl))
            (Writes-nothing w laws (read_receipt_event_cases w) (suc k) m)))

  pub delivery_receipt_event_reads :
      (k : ℕ) (m : DeliveryReceiptEvent)
      → Writes w laws
          (delivery_receipt_event_cases w)
          (suc k)
          (encode_delivery_receipt_event w m)
          create_base_delivery_receipt_event
          m
  unfolding encode_delivery_receipt_event delivery_receipt_event_cases
      create_base_delivery_receipt_event
  delivery_receipt_event_reads k m =
      Writes-both w laws (delivery_receipt_event_cases w) (suc k) _ _ _ _ _
        (Sets-string w laws (delivery_receipt_event_cases w) (suc k) 10 _ _ m.thread_id refl refl)
        (Writes-both w laws (delivery_receipt_event_cases w) (suc k) _ _ _ _ _
          (Sets-string w laws (delivery_receipt_event_cases w) (suc k) 18 _ _ m.recipient_id refl
            refl)
          (Writes-both w laws (delivery_receipt_event_cases w) (suc k) _ _ _ _ _
            (Writes-date w laws (delivery_receipt_event_cases w) k 26 _
              (λ x. record m { watermark = x }) m.watermark refl (λ x. refl))
            (Writes-nothing w laws (delivery_receipt_event_cases w) (suc k) m)))

  pub message_edit_event_reads :
      (k : ℕ) (m : MessageEditEvent)
      → Writes w laws
          (message_edit_event_cases w)
          k
          (encode_message_edit_event w m)
          create_base_message_edit_event
          m
  unfolding encode_message_edit_event message_edit_event_cases create_base_message_edit_event
  message_edit_event_reads k m =
      Writes-both w laws (message_edit_event_cases w) k _ _ _ _ _
        (Sets-string w laws (message_edit_event_cases w) k 10 _ _ m.message_id refl refl)
        (Writes-both w laws (message_edit_event_cases w) k _ _ _ _ _
          (Sets-string w laws (message_edit_event_cases w) k 18 _ _ m.text refl refl)
          (Writes-both w laws (message_edit_event_cases w) k _ _ _ _ _
            (Sets-int64 w laws (message_edit_event_cases w) k 24 _ _ m.edit_count refl refl)
            (Writes-nothing w laws (message_edit_event_cases w) k m)))

  pub message_unsend_event_reads :
      (k : ℕ) (m : MessageUnsendEvent)
      → Writes w laws
          (message_unsend_event_cases w)
          k
          (encode_message_unsend_event w m)
          create_base_message_unsend_event
          m
  unfolding encode_message_unsend_event message_unsend_event_cases create_base_message_unsend_event
  message_unsend_event_reads k m =
      Writes-both w laws (message_unsend_event_cases w) k _ _ _ _ _
        (Sets-string w laws (message_unsend_event_cases w) k 10 _ _ m.message_id refl refl)
        (Writes-both w laws (message_unsend_event_cases w) k _ _ _ _ _
          (Sets-string w laws (message_unsend_event_cases w) k 18 _ _ m.thread_id refl refl)
          (Writes-nothing w laws (message_unsend_event_cases w) k m))

  pub e2ee_receipt_event_reads :
      (k : ℕ) (m : E2eeReceiptEvent)
      → Writes w laws
          (e2ee_receipt_event_cases w)
          k
          (encode_e2ee_receipt_event w m)
          create_base_e2ee_receipt_event
          m
  unfolding encode_e2ee_receipt_event e2ee_receipt_event_cases create_base_e2ee_receipt_event
  e2ee_receipt_event_reads k m =
      Writes-both w laws (e2ee_receipt_event_cases w) k _ _ _ _ _
        (Sets-string w laws (e2ee_receipt_event_cases w) k 10 _ _ m.type refl refl)
        (Writes-both w laws (e2ee_receipt_event_cases w) k _ _ _ _ _
          (Sets-string w laws (e2ee_receipt_event_cases w) k 18 _ _ m.chat_jid refl refl)
          (Writes-both w laws (e2ee_receipt_event_cases w) k _ _ _ _ _
            (Sets-string w laws (e2ee_receipt_event_cases w) k 26 _ _ m.sender_jid refl refl)
            (Writes-both w laws (e2ee_receipt_event_cases w) k _ _ _ _ _
              (Writes-strings w laws (e2ee_receipt_event_cases w) k 34 _
                (λ x. record m { message_ids = x }) m.message_ids refl (λ zs x. refl))
              (Writes-nothing w laws (e2ee_receipt_event_cases w) k m))))
