-- ===== src/Proto/Snapshot/RoundTrip.antt =====
-- Decoding takes back what encoding wrote: the snapshot of a session, of meta/v1/session.ts.
use meta_go.Prelude.{ℕ, suc, refl, none}
use meta_go.Wire.{Wire}
use meta_go.Wire.Laws.{WireLaws}
use meta_go.Wire.Encode.{some_valid}
use meta_go.Wire.Fields.{Writes, Writes-nothing, Writes-both, Writes-string}
use meta_go.Wire.Defaults.{Sets-int64, Sets-string}
use meta_go.Wire.Embedded.{Writes-message}
use meta_go.Proto.Auth.{
  create_base_app_state, encode_app_state, app_state_cases, create_base_cookie_map,
  encode_cookie_map, cookie_map_cases, IsValidCookieMap, create_base_session_auth,
  encode_session_auth, session_auth_cases, IsValidSessionAuth,
}
use meta_go.Proto.Snapshot.{
  FacebookSession, create_base_facebook_session, encode_facebook_session, facebook_session_cases,
  AuthSnapshot, create_base_auth_snapshot, encode_auth_snapshot, auth_snapshot_cases,
  IsValidAuthSnapshot, RefreshAuthRequest, create_base_refresh_auth_request,
  encode_refresh_auth_request, refresh_auth_request_cases, IsValidRefreshAuthRequest,
  RefreshAuthResponse, create_base_refresh_auth_response, encode_refresh_auth_response,
  refresh_auth_response_cases, IsValidRefreshAuthResponse, GetAuthSnapshotRequest,
  create_base_get_auth_snapshot_request, encode_get_auth_snapshot_request,
  get_auth_snapshot_request_cases, GetAuthSnapshotResponse, create_base_get_auth_snapshot_response,
  encode_get_auth_snapshot_response, get_auth_snapshot_response_cases,
  IsValidGetAuthSnapshotResponse,
}
use meta_go.Proto.Google.RoundTrip.{Writes-date}
use meta_go.Proto.Auth.RoundTrip.{app_state_reads, cookie_map_reads, session_auth_reads}

module _ {Byte : Type 0} (w : Wire Byte) (laws : WireLaws w) where
  pub facebook_session_reads :
      (k : ℕ) (m : FacebookSession)
      → Writes w laws
          (facebook_session_cases w)
          (suc k)
          (encode_facebook_session w m)
          create_base_facebook_session
          m
  unfolding encode_facebook_session facebook_session_cases create_base_facebook_session
  facebook_session_reads k m =
      Writes-both w laws (facebook_session_cases w) (suc k) _ _ _ _ _
        (Sets-string w laws (facebook_session_cases w) (suc k) 10 _ _ m.account_id refl refl)
        (Writes-both w laws (facebook_session_cases w) (suc k) _ _ _ _ _
          (Sets-string w laws (facebook_session_cases w) (suc k) 18 _ _ m.name refl refl)
          (Writes-both w laws (facebook_session_cases w) (suc k) _ _ _ _ _
            (Sets-string w laws (facebook_session_cases w) (suc k) 26 _ _ m.username refl refl)
            (Writes-both w laws (facebook_session_cases w) (suc k) _ _ _ _ _
              (Sets-string w laws (facebook_session_cases w) (suc k) 34 _ _ m.dtsg refl refl)
              (Writes-both w laws (facebook_session_cases w) (suc k) _ _ _ _ _
                (Sets-string w laws (facebook_session_cases w) (suc k) 42 _ _ m.jazoest refl refl)
                (Writes-both w laws (facebook_session_cases w) (suc k) _ _ _ _ _
                  (Sets-string w laws (facebook_session_cases w) (suc k) 50 _ _ m.lsd refl refl)
                  (Writes-both w laws (facebook_session_cases w) (suc k) _ _ _ _ _
                    (Sets-string w laws (facebook_session_cases w) (suc k) 58 _ _ m.session_id refl
                      refl)
                    (Writes-both w laws (facebook_session_cases w) (suc k) _ _ _ _ _
                      (Sets-int64 w laws (facebook_session_cases w) (suc k) 64 _ _ m.client_revision
                        refl refl)
                      (Writes-both w laws (facebook_session_cases w) (suc k) _ _ _ _ _
                        (Writes-date w laws (facebook_session_cases w) k 74 _
                          (λ x. record m { refreshed_at = x }) m.refreshed_at refl (λ x. refl))
                        (Writes-nothing w laws (facebook_session_cases w) (suc k) m)))))))))

  pub auth_snapshot_reads :
      (k : ℕ) (m : AuthSnapshot)
      → IsValidAuthSnapshot m
      → Writes w laws
          (auth_snapshot_cases w)
          (suc (suc k))
          (encode_auth_snapshot w m)
          create_base_auth_snapshot
          m
  unfolding encode_auth_snapshot auth_snapshot_cases create_base_auth_snapshot
  auth_snapshot_reads k m h =
      Writes-both w laws (auth_snapshot_cases w) (suc (suc k)) _ _ _ _ _
        (Writes-message w laws (auth_snapshot_cases w) (suc k) 10 (cookie_map_cases w)
          create_base_cookie_map (encode_cookie_map w) _
          (λ x. record m { cookies = x; app_state = none; session = none }) m.cookies
          (λ x e. cookie_map_reads w laws k x (some_valid IsValidCookieMap m.cookies x e h)) refl
          (λ x. refl))
        (Writes-both w laws (auth_snapshot_cases w) (suc (suc k)) _ _ _ _ _
          (Writes-message w laws (auth_snapshot_cases w) (suc k) 18 (app_state_cases w)
            create_base_app_state (encode_app_state w) _
            (λ x. record m { app_state = x; session = none }) m.app_state
            (λ x e. app_state_reads w laws k x) refl (λ x. refl))
          (Writes-both w laws (auth_snapshot_cases w) (suc (suc k)) _ _ _ _ _
            (Writes-message w laws (auth_snapshot_cases w) (suc k) 26 (facebook_session_cases w)
              create_base_facebook_session (encode_facebook_session w) _
              (λ x. record m { session = x }) m.session (λ x e. facebook_session_reads k x) refl
              (λ x. refl))
            (Writes-nothing w laws (auth_snapshot_cases w) (suc (suc k)) m)))

  pub refresh_auth_request_reads :
      (k : ℕ) (m : RefreshAuthRequest)
      → IsValidRefreshAuthRequest m
      → Writes w laws
          (refresh_auth_request_cases w)
          (suc (suc (suc k)))
          (encode_refresh_auth_request w m)
          create_base_refresh_auth_request
          m
  unfolding encode_refresh_auth_request refresh_auth_request_cases create_base_refresh_auth_request
  refresh_auth_request_reads k m h =
      Writes-both w laws (refresh_auth_request_cases w) (suc (suc (suc k))) _ _ _ _ _
        (Writes-string w laws (refresh_auth_request_cases w) (suc (suc (suc k))) 10 _
          (λ x. record m { session_id = x; auth = none }) m.session_id refl refl)
        (Writes-both w laws (refresh_auth_request_cases w) (suc (suc (suc k))) _ _ _ _ _
          (Writes-message w laws (refresh_auth_request_cases w) (suc (suc k)) 18
            (session_auth_cases w) create_base_session_auth (encode_session_auth w) _
            (λ x. record m { auth = x }) m.auth
            (λ x e. session_auth_reads w laws k x (some_valid IsValidSessionAuth m.auth x e h)) refl
            (λ x. refl))
          (Writes-nothing w laws (refresh_auth_request_cases w) (suc (suc (suc k))) m))

  pub refresh_auth_response_reads :
      (k : ℕ) (m : RefreshAuthResponse)
      → IsValidRefreshAuthResponse m
      → Writes w laws
          (refresh_auth_response_cases w)
          (suc (suc (suc k)))
          (encode_refresh_auth_response w m)
          create_base_refresh_auth_response
          m
  unfolding encode_refresh_auth_response refresh_auth_response_cases
      create_base_refresh_auth_response
  refresh_auth_response_reads k m h =
      Writes-both w laws (refresh_auth_response_cases w) (suc (suc (suc k))) _ _ _ _ _
        (Writes-message w laws (refresh_auth_response_cases w) (suc (suc k)) 10
          (auth_snapshot_cases w) create_base_auth_snapshot (encode_auth_snapshot w) _
          (λ x. record m { snapshot = x }) m.snapshot
          (λ x e. auth_snapshot_reads k x (some_valid IsValidAuthSnapshot m.snapshot x e h)) refl
          (λ x. refl))
        (Writes-nothing w laws (refresh_auth_response_cases w) (suc (suc (suc k))) m)

  pub get_auth_snapshot_request_reads :
      (k : ℕ) (m : GetAuthSnapshotRequest)
      → Writes w laws
          (get_auth_snapshot_request_cases w)
          k
          (encode_get_auth_snapshot_request w m)
          create_base_get_auth_snapshot_request
          m
  unfolding encode_get_auth_snapshot_request get_auth_snapshot_request_cases
      create_base_get_auth_snapshot_request
  get_auth_snapshot_request_reads k m =
      Writes-both w laws (get_auth_snapshot_request_cases w) k _ _ _ _ _
        (Sets-string w laws (get_auth_snapshot_request_cases w) k 10 _ _ m.session_id refl refl)
        (Writes-nothing w laws (get_auth_snapshot_request_cases w) k m)

  pub get_auth_snapshot_response_reads :
      (k : ℕ) (m : GetAuthSnapshotResponse)
      → IsValidGetAuthSnapshotResponse m
      → Writes w laws
          (get_auth_snapshot_response_cases w)
          (suc (suc (suc k)))
          (encode_get_auth_snapshot_response w m)
          create_base_get_auth_snapshot_response
          m
  unfolding encode_get_auth_snapshot_response get_auth_snapshot_response_cases
      create_base_get_auth_snapshot_response
  get_auth_snapshot_response_reads k m h =
      Writes-both w laws (get_auth_snapshot_response_cases w) (suc (suc (suc k))) _ _ _ _ _
        (Writes-message w laws (get_auth_snapshot_response_cases w) (suc (suc k)) 10
          (auth_snapshot_cases w) create_base_auth_snapshot (encode_auth_snapshot w) _
          (λ x. record m { snapshot = x }) m.snapshot
          (λ x e. auth_snapshot_reads k x (some_valid IsValidAuthSnapshot m.snapshot x e h)) refl
          (λ x. refl))
        (Writes-nothing w laws (get_auth_snapshot_response_cases w) (suc (suc (suc k))) m)
