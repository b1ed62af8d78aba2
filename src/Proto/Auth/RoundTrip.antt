-- ===== src/Proto/Auth/RoundTrip.antt =====
-- Decoding takes back what encoding wrote: what a session signs in with, of meta/v1/session.ts.
use meta_go.Prelude.{ℕ, suc, refl, Option, none, some, All-All}
use meta_go.Wire.{Wire}
use meta_go.Wire.Laws.{WireLaws}
use meta_go.Wire.Encode.{ForSome}
use meta_go.Wire.Fields.{Writes, Writes-nothing, Writes-both, Writes-tagged, Writes-embedded}
use meta_go.Wire.Defaults.{Sets-bool, Sets-string}
use meta_go.Wire.Embedded.{Writes-messages, Writes-entries}
use meta_go.Proto.Auth.{
  Credentials, create_base_credentials, encode_credentials, credentials_cases,
  CredentialsSecondFactor, put_credentials_second_factor, totp, otp, AppStateCookie,
  create_base_app_state_cookie, encode_app_state_cookie, app_state_cookie_cases, AppState,
  create_base_app_state, encode_app_state, app_state_cases, CookieMapValuesEntry,
  create_base_cookie_map_values_entry, encode_cookie_map_values_entry,
  cookie_map_values_entry_cases, CookieMap, create_base_cookie_map, encode_cookie_map,
  cookie_map_cases, IsValidCookieMap, SessionAuth, create_base_session_auth, encode_session_auth,
  session_auth_cases, IsValidSessionAuth, SessionAuthSource, put_session_auth_source, cookies,
  app_state, credentials, IsValidSessionAuthSource,
}

module _ {Byte : Type 0} (w : Wire Byte) (laws : WireLaws w) where
  credentials_second_factor_reads :
      (k : ℕ) (m : Credentials) (o : Option CredentialsSecondFactor)
      → Writes w laws
          (credentials_cases w)
          k
          (put_credentials_second_factor w o)
          (record m { second_factor = none })
          (record m { second_factor = o })
  unfolding put_credentials_second_factor credentials_cases
  credentials_second_factor_reads k m none =
      Writes-nothing w laws (credentials_cases w) k (record m { second_factor = none })
  credentials_second_factor_reads k m (some (totp v)) =
      Writes-tagged w laws (credentials_cases w) w.string w.read_string k 26 _
        (record m { second_factor = none }) v laws.string_back refl
  credentials_second_factor_reads k m (some (otp v)) =
      Writes-tagged w laws (credentials_cases w) w.string w.read_string k 34 _
        (record m { second_factor = none }) v laws.string_back refl

  pub credentials_reads :
      (k : ℕ) (m : Credentials)
      → Writes w laws (credentials_cases w) k (encode_credentials w m) create_base_credentials m
  unfolding encode_credentials credentials_cases create_base_credentials
  credentials_reads k m =
      Writes-both w laws (credentials_cases w) k _ _ _ _ _
        (Sets-string w laws (credentials_cases w) k 10 _ _ m.identifier refl refl)
        (Writes-both w laws (credentials_cases w) k _ _ _ _ _
          (Sets-string w laws (credentials_cases w) k 18 _ _ m.password refl refl)
          (Writes-both w laws (credentials_cases w) k _ _ _ _ _
            (credentials_second_factor_reads k
              (record { identifier = m.identifier; password = m.password; second_factor = none })
              m.second_factor)
            (Writes-nothing w laws (credentials_cases w) k m)))

  pub app_state_cookie_reads :
      (k : ℕ) (m : AppStateCookie)
      → Writes w laws
          (app_state_cookie_cases w)
          k
          (encode_app_state_cookie w m)
          create_base_app_state_cookie
          m
  unfolding encode_app_state_cookie app_state_cookie_cases create_base_app_state_cookie
  app_state_cookie_reads k m =
      Writes-both w laws (app_state_cookie_cases w) k _ _ _ _ _
        (Sets-string w laws (app_state_cookie_cases w) k 10 _ _ m.key refl refl)
        (Writes-both w laws (app_state_cookie_cases w) k _ _ _ _ _
          (Sets-string w laws (app_state_cookie_cases w) k 18 _ _ m.value refl refl)
          (Writes-both w laws (app_state_cookie_cases w) k _ _ _ _ _
            (Sets-string w laws (app_state_cookie_cases w) k 26 _ _ m.domain refl refl)
            (Writes-both w laws (app_state_cookie_cases w) k _ _ _ _ _
              (Sets-string w laws (app_state_cookie_cases w) k 34 _ _ m.path refl refl)
              (Writes-both w laws (app_state_cookie_cases w) k _ _ _ _ _
                (Sets-bool w laws (app_state_cookie_cases w) k 40 _ _ m.host_only refl refl)
                (Writes-both w laws (app_state_cookie_cases w) k _ _ _ _ _
                  (Sets-bool w laws (app_state_cookie_cases w) k 48 _ _ m.secure refl refl)
                  (Writes-both w laws (app_state_cookie_cases w) k _ _ _ _ _
                    (Sets-bool w laws (app_state_cookie_cases w) k 56 _ _ m.http_only refl refl)
                    (Writes-nothing w laws (app_state_cookie_cases w) k m)))))))

  pub app_state_reads :
      (k : ℕ) (m : AppState)
      → Writes w laws (app_state_cases w) (suc k) (encode_app_state w m) create_base_app_state m
  unfolding encode_app_state app_state_cases create_base_app_state
  app_state_reads k m =
      Writes-both w laws (app_state_cases w) (suc k) _ _ _ _ _
        (Writes-messages w laws (app_state_cases w) k 10 (app_state_cookie_cases w)
          create_base_app_state_cookie (encode_app_state_cookie w) _ (λ x. record m { cookies = x })
          m.cookies (All-All _ (app_state_cookie_reads k) m.cookies) refl (λ zs x. refl))
        (Writes-nothing w laws (app_state_cases w) (suc k) m)

  pub cookie_map_values_entry_reads :
      (k : ℕ) (m : CookieMapValuesEntry)
      → Writes w laws
          (cookie_map_values_entry_cases w)
          k
          (encode_cookie_map_values_entry w m)
          create_base_cookie_map_values_entry
          m
  unfolding encode_cookie_map_values_entry cookie_map_values_entry_cases
      create_base_cookie_map_values_entry
  cookie_map_values_entry_reads k m =
      Writes-both w laws (cookie_map_values_entry_cases w) k _ _ _ _ _
        (Sets-string w laws (cookie_map_values_entry_cases w) k 10 _ _ m.key refl refl)
        (Writes-both w laws (cookie_map_values_entry_cases w) k _ _ _ _ _
          (Sets-string w laws (cookie_map_values_entry_cases w) k 18 _ _ m.value refl refl)
          (Writes-nothing w laws (cookie_map_values_entry_cases w) k m))

  pub cookie_map_reads :
      (k : ℕ) (m : CookieMap)
      → IsValidCookieMap m
      → Writes w laws (cookie_map_cases w) (suc k) (encode_cookie_map w m) create_base_cookie_map m
  unfolding encode_cookie_map cookie_map_cases create_base_cookie_map
  cookie_map_reads k m h =
      Writes-both w laws (cookie_map_cases w) (suc k) _ _ _ _ _
        (Writes-entries w laws (cookie_map_cases w) k 10 (cookie_map_values_entry_cases w)
          create_base_cookie_map_values_entry (encode_cookie_map_values_entry w) _
          (λ e. record { key = e.0; value = e.1 }) (λ x. record m { values = x }) m.values h
          (λ e. cookie_map_values_entry_reads k (record { key = e.0; value = e.1 })) refl
          (λ zs e. refl))
        (Writes-nothing w laws (cookie_map_cases w) (suc k) m)

  session_auth_source_reads :
      (k : ℕ) (m : SessionAuth) (o : Option SessionAuthSource)
      → ForSome IsValidSessionAuthSource o
      → Writes w laws
          (session_auth_cases w)
          (suc (suc k))
          (put_session_auth_source w o)
          (record m { source = none })
          (record m { source = o })
  unfolding put_session_auth_source session_auth_cases
  session_auth_source_reads k m none h =
      Writes-nothing w laws (session_auth_cases w) (suc (suc k)) (record m { source = none })
  session_auth_source_reads k m (some (cookies v)) h =
      Writes-embedded w laws (session_auth_cases w) (cookie_map_cases w) create_base_cookie_map v
        (suc k) 10 (encode_cookie_map w v) _ (record m { source = none }) (cookie_map_reads k v h)
        refl
  session_auth_source_reads k m (some (app_state v)) h =
      Writes-embedded w laws (session_auth_cases w) (app_state_cases w) create_base_app_state v
        (suc k) 18 (encode_app_state w v) _ (record m { source = none }) (app_state_reads k v) refl
  session_auth_source_reads k m (some (credentials v)) h =
      Writes-embedded w laws (session_auth_cases w) (credentials_cases w) create_base_credentials v
        (suc k) 26 (encode_credentials w v) _ (record m { source = none })
        (credentials_reads (suc k) v) refl

  pub session_auth_reads :
      (k : ℕ) (m : SessionAuth)
      → IsValidSessionAuth m
      → Writes w laws
          (session_auth_cases w)
          (suc (suc k))
          (encode_session_auth w m)
          create_base_session_auth
          m
  unfolding encode_session_auth session_auth_cases create_base_session_auth
  session_auth_reads k m h =
      Writes-both w laws (session_auth_cases w) (suc (suc k)) _ _ _ _ _
        (session_auth_source_reads k (record { source = none }) m.source h)
        (Writes-nothing w laws (session_auth_cases w) (suc (suc k)) m)
