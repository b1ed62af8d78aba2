-- ===== src/Proto/Info/RoundTrip.antt =====
-- Decoding takes back what encoding wrote: meta/v1/runtime.ts, meta/v1/health.ts and the health calls of session.ts.
use meta_go.Prelude.{ℕ, suc, refl, [], none}
use meta_go.Wire.{Wire}
use meta_go.Wire.Laws.{WireLaws}
use meta_go.Wire.Fields.{Writes, Writes-nothing, Writes-both, Writes-strings}
use meta_go.Wire.Defaults.{Sets-int32, Sets-string, Sets-uint64}
use meta_go.Wire.Embedded.{Writes-message}
use meta_go.Proto.Common.{
  create_base_protocol_version, encode_protocol_version, protocol_version_cases,
  create_base_build_info, encode_build_info, build_info_cases,
}
use meta_go.Proto.Info.{
  GetInfoRequest, create_base_get_info_request, encode_get_info_request, get_info_request_cases,
  get_info_request, GetInfoResponse, create_base_get_info_response, encode_get_info_response,
  get_info_response_cases, HealthSnapshot, create_base_health_snapshot, encode_health_snapshot,
  health_snapshot_cases, GetHealthRequest, create_base_get_health_request,
  encode_get_health_request, get_health_request_cases, GetHealthResponse,
  create_base_get_health_response, encode_get_health_response, get_health_response_cases,
}
use meta_go.Proto.Google.RoundTrip.{Writes-date}
use meta_go.Proto.Common.RoundTrip.{protocol_version_reads, build_info_reads}

module _ {Byte : Type 0} (w : Wire Byte) (laws : WireLaws w) where
  pub get_info_request_reads :
      (k : ℕ) (m : GetInfoRequest)
      → Writes w laws
          (get_info_request_cases w)
          k
          (encode_get_info_request w m)
          create_base_get_info_request
          m
  unfolding encode_get_info_request create_base_get_info_request
  get_info_request_reads k get_info_request =
      Writes-nothing w laws (get_info_request_cases w) k get_info_request

  pub get_info_response_reads :
      (k : ℕ) (m : GetInfoResponse)
      → Writes w laws
          (get_info_response_cases w)
          (suc k)
          (encode_get_info_response w m)
          create_base_get_info_response
          m
  unfolding encode_get_info_response get_info_response_cases create_base_get_info_response
  get_info_response_reads k m =
      Writes-both w laws (get_info_response_cases w) (suc k) _ _ _ _ _
        (Writes-message w laws (get_info_response_cases w) k 10 (protocol_version_cases w)
          create_base_protocol_version (encode_protocol_version w) _
          (λ x. record m { protocol = x; build = none; capabilities = [] }) m.protocol
          (λ x e. protocol_version_reads w laws k x) refl (λ x. refl))
        (Writes-both w laws (get_info_response_cases w) (suc k) _ _ _ _ _
          (Writes-message w laws (get_info_response_cases w) k 18 (build_info_cases w)
            create_base_build_info (encode_build_info w) _
            (λ x. record m { build = x; capabilities = [] }) m.build
            (λ x e. build_info_reads w laws k x) refl (λ x. refl))
          (Writes-both w laws (get_info_response_cases w) (suc k) _ _ _ _ _
            (Writes-strings w laws (get_info_response_cases w) (suc k) 26 _
              (λ x. record m { capabilities = x }) m.capabilities refl (λ zs x. refl))
            (Writes-nothing w laws (get_info_response_cases w) (suc k) m)))

  pub health_snapshot_reads :
      (k : ℕ) (m : HealthSnapshot)
      → Writes w laws
          (health_snapshot_cases w)
          (suc k)
          (encode_health_snapshot w m)
          create_base_health_snapshot
          m
  unfolding encode_health_snapshot health_snapshot_cases create_base_health_snapshot
  health_snapshot_reads k m =
      Writes-both w laws (health_snapshot_cases w) (suc k) _ _ _ _ _
        (Sets-int32 w laws (health_snapshot_cases w) (suc k) 8 _ _ m.regular refl refl)
        (Writes-both w laws (health_snapshot_cases w) (suc k) _ _ _ _ _
          (Sets-int32 w laws (health_snapshot_cases w) (suc k) 16 _ _ m.e2ee refl refl)
          (Writes-both w laws (health_snapshot_cases w) (suc k) _ _ _ _ _
            (Sets-uint64 w laws (health_snapshot_cases w) (suc k) 24 _ _ m.reconnect_count refl
              refl)
            (Writes-both w laws (health_snapshot_cases w) (suc k) _ _ _ _ _
              (Sets-uint64 w laws (health_snapshot_cases w) (suc k) 32 _ _
                m.engine_dropped_event_count refl refl)
              (Writes-both w laws (health_snapshot_cases w) (suc k) _ _ _ _ _
                (Sets-uint64 w laws (health_snapshot_cases w) (suc k) 40 _ _
                  m.subscriber_dropped_event_count refl refl)
                (Writes-both w laws (health_snapshot_cases w) (suc k) _ _ _ _ _
                  (Writes-date w laws (health_snapshot_cases w) k 50 _
                    (λ x. record m {
                      last_successful_send = x;
                      last_receive = none;
                      last_error_category = "";
                    })
                    m.last_successful_send refl (λ x. refl))
                  (Writes-both w laws (health_snapshot_cases w) (suc k) _ _ _ _ _
                    (Writes-date w laws (health_snapshot_cases w) k 58 _
                      (λ x. record m { last_receive = x; last_error_category = "" }) m.last_receive
                      refl (λ x. refl))
                    (Writes-both w laws (health_snapshot_cases w) (suc k) _ _ _ _ _
                      (Sets-string w laws (health_snapshot_cases w) (suc k) 66 _ _
                        m.last_error_category refl refl)
                      (Writes-nothing w laws (health_snapshot_cases w) (suc k) m))))))))

  pub get_health_request_reads :
      (k : ℕ) (m : GetHealthRequest)
      → Writes w laws
          (get_health_request_cases w)
          k
          (encode_get_health_request w m)
          create_base_get_health_request
          m
  unfolding encode_get_health_request get_health_request_cases create_base_get_health_request
  get_health_request_reads k m =
      Writes-both w laws (get_health_request_cases w) k _ _ _ _ _
        (Sets-string w laws (get_health_request_cases w) k 10 _ _ m.session_id refl refl)
        (Writes-nothing w laws (get_health_request_cases w) k m)

  pub get_health_response_reads :
      (k : ℕ) (m : GetHealthResponse)
      → Writes w laws
          (get_health_response_cases w)
          (suc (suc k))
          (encode_get_health_response w m)
          create_base_get_health_response
          m
  unfolding encode_get_health_response get_health_response_cases create_base_get_health_response
  get_health_response_reads k m =
      Writes-both w laws (get_health_response_cases w) (suc (suc k)) _ _ _ _ _
        (Writes-message w laws (get_health_response_cases w) (suc k) 10 (health_snapshot_cases w)
          create_base_health_snapshot (encode_health_snapshot w) _ (λ x. record m { health = x })
          m.health (λ x e. health_snapshot_reads k x) refl (λ x. refl))
        (Writes-nothing w laws (get_health_response_cases w) (suc (suc k)) m)
