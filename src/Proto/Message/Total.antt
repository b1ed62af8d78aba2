-- ===== src/Proto/Message/Total.antt =====
-- Decoding ends on every input: the messages of a thread, of meta/v1/common.ts.
use meta_go.Wire.{Wire}
use meta_go.Wire.Laws.{WireLaws}
use meta_go.Wire.Bounded.{IsForward, decode_embedded-Within, set_by-Within, set_message-Within}
use meta_go.Proto.Google.{create_base_timestamp, timestamp_cases}
use meta_go.Proto.Google.Total.{timestamp-IsForward}
use meta_go.Proto.Message.{
  create_base_reply_reference, reply_reference_cases, create_base_mention, mention_cases,
  create_base_e2ee_media_reference, e2ee_media_reference_cases, create_base_attachment,
  attachment_cases, message_cases, media_chunk_cases,
}

module _ {Byte : Type 0} (w : Wire Byte) (laws : WireLaws w) where
  pub reply_reference-IsForward : IsForward (reply_reference_cases w)
  unfolding reply_reference_cases
  reply_reference-IsForward =
      (set_by-Within _ _ laws.string_forward, (set_by-Within _ _ laws.string_forward, tt))

  pub mention-IsForward : IsForward (mention_cases w)
  unfolding mention_cases
  mention-IsForward = (
    set_by-Within _ _ laws.string_forward,
    (set_by-Within _ _ laws.int32_forward, (set_by-Within _ _ laws.int32_forward, tt)),
  )

  pub e2ee_media_reference-IsForward : IsForward (e2ee_media_reference_cases w)
  unfolding e2ee_media_reference_cases
  e2ee_media_reference-IsForward = (
    set_by-Within _ _ laws.string_forward,
    (
      set_by-Within _ _ laws.string_forward,
      (
        set_by-Within _ _ laws.bytes_forward,
        (
          set_by-Within _ _ laws.bytes_forward,
          (
            set_by-Within _ _ laws.bytes_forward,
            (set_by-Within _ _ laws.string_forward, (set_by-Within _ _ laws.int64_forward, tt)),
          ),
        ),
      ),
    ),
  )

  pub attachment-IsForward : IsForward (attachment_cases w)
  unfolding attachment_cases
  attachment-IsForward = (
    set_by-Within _ _ laws.string_forward,
    (
      set_by-Within _ _ laws.string_forward,
      (
        set_by-Within _ _ laws.string_forward,
        (
          set_by-Within _ _ laws.string_forward,
          (
            set_by-Within _ _ laws.string_forward,
            (
              set_by-Within _ _ laws.string_forward,
              (
                set_by-Within _ _ laws.int64_forward,
                (
                  set_by-Within _ _ laws.int32_forward,
                  (
                    set_by-Within _ _ laws.int32_forward,
                    (
                      set_by-Within _ _ laws.int32_forward,
                      (
                        set_message-Within _ _ (
                            decode_embedded-Within w laws (e2ee_media_reference_cases w)
                              e2ee_media_reference-IsForward create_base_e2ee_media_reference),
                        tt,
                      ),
                    ),
                  ),
                ),
              ),
            ),
          ),
        ),
      ),
    ),
  )

  pub message-IsForward : IsForward (message_cases w)
  unfolding message_cases
  message-IsForward = (
    set_by-Within _ _ laws.string_forward,
    (
      set_by-Within _ _ laws.string_forward,
      (
        set_by-Within _ _ laws.string_forward,
        (
          set_by-Within _ _ laws.string_forward,
          (
            set_message-Within _ _ (
                decode_embedded-Within w laws (timestamp_cases w) (timestamp-IsForward w laws)
                  create_base_timestamp),
            (
              set_message-Within _ _ (
                  decode_embedded-Within w laws (reply_reference_cases w) reply_reference-IsForward
                    create_base_reply_reference),
              (
                set_message-Within _ _ (
                    decode_embedded-Within w laws (mention_cases w) mention-IsForward
                      create_base_mention),
                (
                  set_message-Within _ _ (
                      decode_embedded-Within w laws (attachment_cases w) attachment-IsForward
                        create_base_attachment),
                  (
                    set_by-Within _ _ laws.int32_forward,
                    (set_by-Within _ _ laws.int32_forward, tt),
                  ),
                ),
              ),
            ),
          ),
        ),
      ),
    ),
  )

  pub media_chunk-IsForward : IsForward (media_chunk_cases w)
  unfolding media_chunk_cases
  media_chunk-IsForward = (set_by-Within _ _ laws.bytes_forward, tt)
