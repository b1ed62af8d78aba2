-- ===== src/Proto/Session/RoundTrip.antt =====
-- Decoding takes back what encoding wrote: creating, connecting and following a session, of meta/v1/session.ts.
use meta_go.Prelude.{ℕ, suc, refl, false, none}
use meta_go.Wire.{Wire}
use meta_go.Wire.Laws.{WireLaws}
use meta_go.Wire.Encode.{some_valid}
use meta_go.Wire.Fields.{Writes, Writes-nothing, Writes-both, Writes-bool, Writes-uint32}
use meta_go.Wire.Defaults.{Sets-string, Sets-uint32}
use meta_go.Wire.Embedded.{Writes-message, Writes-entries}
use meta_go.Proto.Google.{create_base_duration, encode_duration, duration_cases}
use meta_go.Proto.Common.{create_base_account, encode_account, account_cases}
use meta_go.Proto.Event.{create_base_event, encode_event, event_cases, IsValidEvent}
use meta_go.Proto.Auth.{
  create_base_session_auth, encode_session_auth, session_auth_cases, IsValidSessionAuth,
}
use meta_go.Proto.Session.{
  CreateSessionRequestCookiesEntry, create_base_create_session_request_cookies_entry,
  encode_create_session_request_cookies_entry, create_session_request_cookies_entry_cases,
  CreateSessionRequest, create_base_create_session_request, encode_create_session_request,
  create_session_request_cases, IsValidCreateSessionRequest, CreateSessionResponse,
  create_base_create_session_response, encode_create_session_response,
  create_session_response_cases, ConnectRequest, create_base_connect_request,
  encode_connect_request, connect_request_cases, ConnectResponse, create_base_connect_response,
  encode_connect_response, connect_response_cases, CloseSessionRequest,
  create_base_close_session_request, encode_close_session_request, close_session_request_cases,
  CloseSessionResponse, create_base_close_session_response, encode_close_session_response,
  close_session_response_cases, close_session_response, SubscribeEventsRequest,
  create_base_subscribe_events_request, encode_subscribe_events_request,
  subscribe_events_request_cases, SubscribeEventsResponse, create_base_subscribe_events_response,
  encode_subscribe_events_response, subscribe_events_response_cases, IsValidSubscribeEventsResponse,
}
use meta_go.Proto.Google.RoundTrip.{duration_reads}
use meta_go.Proto.Common.RoundTrip.{account_reads}
use meta_go.Proto.Event.RoundTrip.{event_reads}
use meta_go.Proto.Auth.RoundTrip.{session_auth_reads}

module _ {Byte : Type 0} (w : Wire Byte) (laws : WireLaws w) where
  pub create_session_request_cookies_entry_reads :
      (k : ℕ) (m : CreateSessionRequestCookiesEntry)
      → Writes w laws
          (create_session_request_cookies_entry_cases w)
          k
          (encode_create_session_request_cookies_entry w m)
          create_base_create_session_request_cookies_entry
          m
  unfolding encode_create_session_request_cookies_entry create_session_request_cookies_entry_cases
      create_base_create_session_request_cookies_entry
  create_session_request_cookies_entry_reads k m =
      Writes-both w laws (create_session_request_cookies_entry_cases w) k _ _ _ _ _
        (Sets-string w laws (create_session_request_cookies_entry_cases w) k 10 _ _ m.key refl refl)
        (Writes-both w laws (create_session_request_cookies_entry_cases w) k _ _ _ _ _
          (Sets-string w laws (create_session_request_cookies_entry_cases w) k 18 _ _ m.value refl
            refl)
          (Writes-nothing w laws (create_session_request_cookies_entry_cases w) k m))

  pub create_session_request_reads :
      (k : ℕ) (m : CreateSessionRequest)
      → IsValidCreateSessionRequest m
      → Writes w laws
          (create_session_request_cases w)
          (suc (suc (suc k)))
          (encode_create_session_request w m)
          create_base_create_session_request
          m
  unfolding encode_create_session_request create_session_request_cases
      create_base_create_session_request
  create_session_request_reads k m h =
      Writes-both w laws (create_session_request_cases w) (suc (suc (suc k))) _ _ _ _ _
        (Writes-entries w laws (create_session_request_cases w) (suc (suc k)) 10
          (create_session_request_cookies_entry_cases w)
          create_base_create_session_request_cookies_entry
          (encode_create_session_request_cookies_entry w) _ (λ e. record { key = e.0; value = e.1 })
          (λ x. record m {
            cookies = x;
            e2ee = false;
            event_buffer = 0;
            timeout = none;
            auth = none;
          })
          m.cookies h.0
          (λ e.
            create_session_request_cookies_entry_reads (suc (suc k))
              (record { key = e.0; value = e.1 }))
          refl (λ zs e. refl))
        (Writes-both w laws (create_session_request_cases w) (suc (suc (suc k))) _ _ _ _ _
          (Writes-bool w laws (create_session_request_cases w) (suc (suc (suc k))) 16 _
            (λ x. record m { e2ee = x; event_buffer = 0; timeout = none; auth = none }) m.e2ee refl
            refl)
          (Writes-both w laws (create_session_request_cases w) (suc (suc (suc k))) _ _ _ _ _
            (Writes-uint32 w laws (create_session_request_cases w) (suc (suc (suc k))) 24 _
              (λ x. record m { event_buffer = x; timeout = none; auth = none }) m.event_buffer refl
              refl)
            (Writes-both w laws (create_session_request_cases w) (suc (suc (suc k))) _ _ _ _ _
              (Writes-message w laws (create_session_request_cases w) (suc (suc k)) 34
                (duration_cases w) create_base_duration (encode_duration w) _
                (λ x. record m { timeout = x; auth = none }) m.timeout
                (λ x e. duration_reads w laws (suc (suc k)) x) refl (λ x. refl))
              (Writes-both w laws (create_session_request_cases w) (suc (suc (suc k))) _ _ _ _ _
                (Writes-message w laws (create_session_request_cases w) (suc (suc k)) 42
                  (session_auth_cases w) create_base_session_auth (encode_session_auth w) _
                  (λ x. record m { auth = x }) m.auth
                  (λ x e.
                    session_auth_reads w laws k x (some_valid IsValidSessionAuth m.auth x e h.1))
                  refl (λ x. refl))
                (Writes-nothing w laws (create_session_request_cases w) (suc (suc (suc k))) m)))))

  pub create_session_response_reads :
      (k : ℕ) (m : CreateSessionResponse)
      → Writes w laws
          (create_session_response_cases w)
          k
          (encode_create_session_response w m)
          create_base_create_session_response
          m
  unfolding encode_create_session_response create_session_response_cases
      create_base_create_session_response
  create_session_response_reads k m =
      Writes-both w laws (create_session_response_cases w) k _ _ _ _ _
        (Sets-string w laws (create_session_response_cases w) k 10 _ _ m.session_id refl refl)
        (Writes-nothing w laws (create_session_response_cases w) k m)

  pub connect_request_reads :
      (k : ℕ) (m : ConnectRequest)
      → Writes w laws
          (connect_request_cases w)
          k
          (encode_connect_request w m)
          create_base_connect_request
          m
  unfolding encode_connect_request connect_request_cases create_base_connect_request
  connect_request_reads k m =
      Writes-both w laws (connect_request_cases w) k _ _ _ _ _
        (Sets-string w laws (connect_request_cases w) k 10 _ _ m.session_id refl refl)
        (Writes-nothing w laws (connect_request_cases w) k m)

  pub connect_response_reads :
      (k : ℕ) (m : ConnectResponse)
      → Writes w laws
          (connect_response_cases w)
          (suc k)
          (encode_connect_response w m)
          create_base_connect_response
          m
  unfolding encode_connect_response connect_response_cases create_base_connect_response
  connect_response_reads k m =
      Writes-both w laws (connect_response_cases w) (suc k) _ _ _ _ _
        (Writes-message w laws (connect_response_cases w) k 10 (account_cases w) create_base_account
          (encode_account w) _ (λ x. record m { account = x }) m.account
          (λ x e. account_reads w laws k x) refl (λ x. refl))
        (Writes-nothing w laws (connect_response_cases w) (suc k) m)

  pub close_session_request_reads :
      (k : ℕ) (m : CloseSessionRequest)
      → Writes w laws
          (close_session_request_cases w)
          k
          (encode_close_session_request w m)
          create_base_close_session_request
          m
  unfolding encode_close_session_request close_session_request_cases
      create_base_close_session_request
  close_session_request_reads k m =
      Writes-both w laws (close_session_request_cases w) k _ _ _ _ _
        (Sets-string w laws (close_session_request_cases w) k 10 _ _ m.session_id refl refl)
        (Writes-nothing w laws (close_session_request_cases w) k m)

  pub close_session_response_reads :
      (k : ℕ) (m : CloseSessionResponse)
      → Writes w laws
          (close_session_response_cases w)
          k
          (encode_close_session_response w m)
          create_base_close_session_response
          m
  unfolding encode_close_session_response create_base_close_session_response
  close_session_response_reads k close_session_response =
      Writes-nothing w laws (close_session_response_cases w) k close_session_response

  pub subscribe_events_request_reads :
      (k : ℕ) (m : SubscribeEventsRequest)
      → Writes w laws
          (subscribe_events_request_cases w)
          k
          (encode_subscribe_events_request w m)
          create_base_subscribe_events_request
          m
  unfolding encode_subscribe_events_request subscribe_events_request_cases
      create_base_subscribe_events_request
  subscribe_events_request_reads k m =
      Writes-both w laws (subscribe_events_request_cases w) k _ _ _ _ _
        (Sets-string w laws (subscribe_events_request_cases w) k 10 _ _ m.session_id refl refl)
        (Writes-both w laws (subscribe_events_request_cases w) k _ _ _ _ _
          (Sets-uint32 w laws (subscribe_events_request_cases w) k 16 _ _ m.buffer refl refl)
          (Writes-nothing w laws (subscribe_events_request_cases w) k m))

  pub subscribe_events_response_reads :
      (k : ℕ) (m : SubscribeEventsResponse)
      → IsValidSubscribeEventsResponse m
      → Writes w laws
          (subscribe_events_response_cases w)
          (suc (suc (suc (suc (suc k)))))
          (encode_subscribe_events_response w m)
          create_base_subscribe_events_response
          m
  unfolding encode_subscribe_events_response subscribe_events_response_cases
      create_base_subscribe_events_response
  subscribe_events_response_reads k m h =
      Writes-both w laws (subscribe_events_response_cases w) (suc (suc (suc (suc (suc k))))) _ _ _ _
        _
        (Writes-message w laws (subscribe_events_response_cases w) (suc (suc (suc (suc k)))) 10
          (event_cases w) create_base_event (encode_event w) _ (λ x. record m { event = x }) m.event
          (λ x e. event_reads w laws k x (some_valid IsValidEvent m.event x e h)) refl (λ x. refl))
        (Writes-nothing w laws (subscribe_events_response_cases w) (suc (suc (suc (suc (suc k)))))
          m)
