-- ===== src/Proto/Message/RoundTrip.antt =====
-- Decoding takes back what encoding wrote: the messages of a thread, of meta/v1/common.ts.
use meta_go.Prelude.{ℕ, suc, refl, [], none, pos, All-All}
use meta_go.Wire.{Wire}
use meta_go.Wire.Laws.{WireLaws}
use meta_go.Wire.Fields.{Writes, Writes-nothing, Writes-both, Writes-string, Writes-int32}
use meta_go.Wire.Defaults.{Sets-bytes, Sets-int32, Sets-int64, Sets-string}
use meta_go.Wire.Embedded.{Writes-message, Writes-messages}
use meta_go.Proto.Message.{
  ReplyReference, create_base_reply_reference, encode_reply_reference, reply_reference_cases,
  Mention, create_base_mention, encode_mention, mention_cases, E2eeMediaReference,
  create_base_e2ee_media_reference, encode_e2ee_media_reference, e2ee_media_reference_cases,
  Attachment, create_base_attachment, encode_attachment, attachment_cases, Message,
  create_base_message, encode_message, message_cases, MediaChunk, create_base_media_chunk,
  encode_media_chunk, media_chunk_cases,
}
use meta_go.Proto.Google.RoundTrip.{Writes-date}

module _ {Byte : Type 0} (w : Wire Byte) (laws : WireLaws w) where
  pub reply_reference_reads :
      (k : ℕ) (m : ReplyReference)
      → Writes w laws
          (reply_reference_cases w)
          k
          (encode_reply_reference w m)
          create_base_reply_reference
          m
  unfolding encode_reply_reference reply_reference_cases create_base_reply_reference
  reply_reference_reads k m =
      Writes-both w laws (reply_reference_cases w) k _ _ _ _ _
        (Sets-string w laws (reply_reference_cases w) k 10 _ _ m.message_id refl refl)
        (Writes-both w laws (reply_reference_cases w) k _ _ _ _ _
          (Sets-string w laws (reply_reference_cases w) k 18 _ _ m.sender_id refl refl)
          (Writes-nothing w laws (reply_reference_cases w) k m))

  pub mention_reads :
      (k : ℕ) (m : Mention)
      → Writes w laws (mention_cases w) k (encode_mention w m) create_base_mention m
  unfolding encode_mention mention_cases create_base_mention
  mention_reads k m =
      Writes-both w laws (mention_cases w) k _ _ _ _ _
        (Sets-string w laws (mention_cases w) k 10 _ _ m.user_id refl refl)
        (Writes-both w laws (mention_cases w) k _ _ _ _ _
          (Sets-int32 w laws (mention_cases w) k 16 _ _ m.offset refl refl)
          (Writes-both w laws (mention_cases w) k _ _ _ _ _
            (Sets-int32 w laws (mention_cases w) k 24 _ _ m.length refl refl)
            (Writes-nothing w laws (mention_cases w) k m)))

  pub e2ee_media_reference_reads :
      (k : ℕ) (m : E2eeMediaReference)
      → Writes w laws
          (e2ee_media_reference_cases w)
          k
          (encode_e2ee_media_reference w m)
          create_base_e2ee_media_reference
          m
  unfolding encode_e2ee_media_reference e2ee_media_reference_cases create_base_e2ee_media_reference
  e2ee_media_reference_reads k m =
      Writes-both w laws (e2ee_media_reference_cases w) k _ _ _ _ _
        (Sets-string w laws (e2ee_media_reference_cases w) k 10 _ _ m.kind refl refl)
        (Writes-both w laws (e2ee_media_reference_cases w) k _ _ _ _ _
          (Sets-string w laws (e2ee_media_reference_cases w) k 18 _ _ m.direct_path refl refl)
          (Writes-both w laws (e2ee_media_reference_cases w) k _ _ _ _ _
            (Sets-bytes w laws (e2ee_media_reference_cases w) k 26 _ _ m.media_key refl refl)
            (Writes-both w laws (e2ee_media_reference_cases w) k _ _ _ _ _
              (Sets-bytes w laws (e2ee_media_reference_cases w) k 34 _ _ m.file_sha256 refl refl)
              (Writes-both w laws (e2ee_media_reference_cases w) k _ _ _ _ _
                (Sets-bytes w laws (e2ee_media_reference_cases w) k 42 _ _ m.file_enc_sha256 refl
                  refl)
                (Writes-both w laws (e2ee_media_reference_cases w) k _ _ _ _ _
                  (Sets-string w laws (e2ee_media_reference_cases w) k 50 _ _ m.content_type refl
                    refl)
                  (Writes-both w laws (e2ee_media_reference_cases w) k _ _ _ _ _
                    (Sets-int64 w laws (e2ee_media_reference_cases w) k 56 _ _ m.size refl refl)
                    (Writes-nothing w laws (e2ee_media_reference_cases w) k m)))))))

  pub attachment_reads :
      (k : ℕ) (m : Attachment)
      → Writes w laws (attachment_cases w) (suc k) (encode_attachment w m) create_base_attachment m
  unfolding encode_attachment attachment_cases create_base_attachment
  attachment_reads k m =
      Writes-both w laws (attachment_cases w) (suc k) _ _ _ _ _
        (Sets-string w laws (attachment_cases w) (suc k) 10 _ _ m.id refl refl)
        (Writes-both w laws (attachment_cases w) (suc k) _ _ _ _ _
          (Sets-string w laws (attachment_cases w) (suc k) 18 _ _ m.type refl refl)
          (Writes-both w laws (attachment_cases w) (suc k) _ _ _ _ _
            (Sets-string w laws (attachment_cases w) (suc k) 26 _ _ m.url refl refl)
            (Writes-both w laws (attachment_cases w) (suc k) _ _ _ _ _
              (Sets-string w laws (attachment_cases w) (suc k) 34 _ _ m.preview_url refl refl)
              (Writes-both w laws (attachment_cases w) (suc k) _ _ _ _ _
                (Sets-string w laws (attachment_cases w) (suc k) 42 _ _ m.file_name refl refl)
                (Writes-both w laws (attachment_cases w) (suc k) _ _ _ _ _
                  (Sets-string w laws (attachment_cases w) (suc k) 50 _ _ m.content_type refl refl)
                  (Writes-both w laws (attachment_cases w) (suc k) _ _ _ _ _
                    (Sets-int64 w laws (attachment_cases w) (suc k) 56 _ _ m.size refl refl)
                    (Writes-both w laws (attachment_cases w) (suc k) _ _ _ _ _
                      (Sets-int32 w laws (attachment_cases w) (suc k) 64 _ _ m.width refl refl)
                      (Writes-both w laws (attachment_cases w) (suc k) _ _ _ _ _
                        (Sets-int32 w laws (attachment_cases w) (suc k) 72 _ _ m.height refl refl)
                        (Writes-both w laws (attachment_cases w) (suc k) _ _ _ _ _
                          (Sets-int32 w laws (attachment_cases w) (suc k) 80 _ _ m.duration refl
                            refl)
                          (Writes-both w laws (attachment_cases w) (suc k) _ _ _ _ _
                            (Writes-message w laws (attachment_cases w) k 90
                              (e2ee_media_reference_cases w) create_base_e2ee_media_reference
                              (encode_e2ee_media_reference w) _ (λ x. record m { e2ee = x }) m.e2ee
                              (λ x e. e2ee_media_reference_reads k x) refl (λ x. refl))
                            (Writes-nothing w laws (attachment_cases w) (suc k) m)))))))))))

  pub message_reads :
      (k : ℕ) (m : Message)
      → Writes w laws (message_cases w) (suc (suc k)) (encode_message w m) create_base_message m
  unfolding encode_message message_cases create_base_message
  message_reads k m =
      Writes-both w laws (message_cases w) (suc (suc k)) _ _ _ _ _
        (Writes-string w laws (message_cases w) (suc (suc k)) 10 _
          (λ x. record m {
            id = x;
            thread_id = "";
            sender_id = "";
            text = "";
            timestamp = none;
            reply_to = none;
            mentions = [];
            attachments = [];
            encryption = pos 0;
            transport = pos 0;
          })
          m.id refl refl)
        (Writes-both w laws (message_cases w) (suc (suc k)) _ _ _ _ _
          (Writes-string w laws (message_cases w) (suc (suc k)) 18 _
            (λ x. record m {
              thread_id = x;
              sender_id = "";
              text = "";
              timestamp = none;
              reply_to = none;
              mentions = [];
              attachments = [];
              encryption = pos 0;
              transport = pos 0;
            })
            m.thread_id refl refl)
          (Writes-both w laws (message_cases w) (suc (suc k)) _ _ _ _ _
            (Writes-string w laws (message_cases w) (suc (suc k)) 26 _
              (λ x. record m {
                sender_id = x;
                text = "";
                timestamp = none;
                reply_to = none;
                mentions = [];
                attachments = [];
                encryption = pos 0;
                transport = pos 0;
              })
              m.sender_id refl refl)
            (Writes-both w laws (message_cases w) (suc (suc k)) _ _ _ _ _
              (Writes-string w laws (message_cases w) (suc (suc k)) 34 _
                (λ x. record m {
                  text = x;
                  timestamp = none;
                  reply_to = none;
                  mentions = [];
                  attachments = [];
                  encryption = pos 0;
                  transport = pos 0;
                })
                m.text refl refl)
              (Writes-both w laws (message_cases w) (suc (suc k)) _ _ _ _ _
                (Writes-date w laws (message_cases w) (suc k) 42 _
                  (λ x. record m {
                    timestamp = x;
                    reply_to = none;
                    mentions = [];
                    attachments = [];
                    encryption = pos 0;
                    transport = pos 0;
                  })
                  m.timestamp refl (λ x. refl))
                (Writes-both w laws (message_cases w) (suc (suc k)) _ _ _ _ _
                  (Writes-message w laws (message_cases w) (suc k) 50 (reply_reference_cases w)
                    create_base_reply_reference (encode_reply_reference w) _
                    (λ x. record m {
                      reply_to = x;
                      mentions = [];
                      attachments = [];
                      encryption = pos 0;
                      transport = pos 0;
                    })
                    m.reply_to (λ x e. reply_reference_reads (suc k) x) refl (λ x. refl))
                  (Writes-both w laws (message_cases w) (suc (suc k)) _ _ _ _ _
                    (Writes-messages w laws (message_cases w) (suc k) 58 (mention_cases w)
                      create_base_mention (encode_mention w) _
                      (λ x. record m {
                        mentions = x;
                        attachments = [];
                        encryption = pos 0;
                        transport = pos 0;
                      })
                      m.mentions (All-All _ (mention_reads (suc k)) m.mentions) refl (λ zs x. refl))
                    (Writes-both w laws (message_cases w) (suc (suc k)) _ _ _ _ _
                      (Writes-messages w laws (message_cases w) (suc k) 66 (attachment_cases w)
                        create_base_attachment (encode_attachment w) _
                        (λ x. record m { attachments = x; encryption = pos 0; transport = pos 0 })
                        m.attachments (All-All _ (attachment_reads k) m.attachments) refl
                        (λ zs x. refl))
                      (Writes-both w laws (message_cases w) (suc (suc k)) _ _ _ _ _
                        (Writes-int32 w laws (message_cases w) (suc (suc k)) 72 _
                          (λ x. record m { encryption = x; transport = pos 0 }) m.encryption refl
                          refl)
                        (Writes-both w laws (message_cases w) (suc (suc k)) _ _ _ _ _
                          (Writes-int32 w laws (message_cases w) (suc (suc k)) 80 _
                            (λ x. record m { transport = x }) m.transport refl refl)
                          (Writes-nothing w laws (message_cases w) (suc (suc k)) m))))))))))

  pub media_chunk_reads :
      (k : ℕ) (m : MediaChunk)
      → Writes w laws (media_chunk_cases w) k (encode_media_chunk w m) create_base_media_chunk m
  unfolding encode_media_chunk media_chunk_cases create_base_media_chunk
  media_chunk_reads k m =
      Writes-both w laws (media_chunk_cases w) k _ _ _ _ _
        (Sets-bytes w laws (media_chunk_cases w) k 10 _ _ m.payload_bytes refl refl)
        (Writes-nothing w laws (media_chunk_cases w) k m)
