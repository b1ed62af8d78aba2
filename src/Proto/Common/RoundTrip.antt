-- ===== src/Proto/Common/RoundTrip.antt =====
-- Decoding takes back what encoding wrote: the versions, errors and accounts of meta/v1/common.ts.
use meta_go.Prelude.{ℕ, suc, refl}
use meta_go.Wire.{Wire}
use meta_go.Wire.Laws.{WireLaws}
use meta_go.Wire.Fields.{Writes, Writes-nothing, Writes-both}
use meta_go.Wire.Defaults.{Sets-bool, Sets-int32, Sets-string, Sets-uint32}
use meta_go.Wire.Embedded.{Writes-entries}
use meta_go.Proto.Common.{
  ProtocolVersion, create_base_protocol_version, encode_protocol_version, protocol_version_cases,
  BuildInfo, create_base_build_info, encode_build_info, build_info_cases, ErrorDetailDetailsEntry,
  create_base_error_detail_details_entry, encode_error_detail_details_entry,
  error_detail_details_entry_cases, ErrorDetail, create_base_error_detail, encode_error_detail,
  error_detail_cases, IsValidErrorDetail, Account, create_base_account, encode_account,
  account_cases,
}

module _ {Byte : Type 0} (w : Wire Byte) (laws : WireLaws w) where
  pub protocol_version_reads :
      (k : ℕ) (m : ProtocolVersion)
      → Writes w laws
          (protocol_version_cases w)
          k
          (encode_protocol_version w m)
          create_base_protocol_version
          m
  unfolding encode_protocol_version protocol_version_cases create_base_protocol_version
  protocol_version_reads k m =
      Writes-both w laws (protocol_version_cases w) k _ _ _ _ _
        (Sets-uint32 w laws (protocol_version_cases w) k 8 _ _ m.major refl refl)
        (Writes-both w laws (protocol_version_cases w) k _ _ _ _ _
          (Sets-uint32 w laws (protocol_version_cases w) k 16 _ _ m.minor refl refl)
          (Writes-nothing w laws (protocol_version_cases w) k m))

  pub build_info_reads :
      (k : ℕ) (m : BuildInfo)
      → Writes w laws (build_info_cases w) k (encode_build_info w m) create_base_build_info m
  unfolding encode_build_info build_info_cases create_base_build_info
  build_info_reads k m =
      Writes-both w laws (build_info_cases w) k _ _ _ _ _
        (Sets-string w laws (build_info_cases w) k 10 _ _ m.version refl refl)
        (Writes-both w laws (build_info_cases w) k _ _ _ _ _
          (Sets-string w laws (build_info_cases w) k 18 _ _ m.commit refl refl)
          (Writes-both w laws (build_info_cases w) k _ _ _ _ _
            (Sets-string w laws (build_info_cases w) k 26 _ _ m.go_version refl refl)
            (Writes-both w laws (build_info_cases w) k _ _ _ _ _
              (Sets-string w laws (build_info_cases w) k 34 _ _ m.os refl refl)
              (Writes-both w laws (build_info_cases w) k _ _ _ _ _
                (Sets-string w laws (build_info_cases w) k 42 _ _ m.arch refl refl)
                (Writes-nothing w laws (build_info_cases w) k m)))))

  pub error_detail_details_entry_reads :
      (k : ℕ) (m : ErrorDetailDetailsEntry)
      → Writes w laws
          (error_detail_details_entry_cases w)
          k
          (encode_error_detail_details_entry w m)
          create_base_error_detail_details_entry
          m
  unfolding encode_error_detail_details_entry error_detail_details_entry_cases
      create_base_error_detail_details_entry
  error_detail_details_entry_reads k m =
      Writes-both w laws (error_detail_details_entry_cases w) k _ _ _ _ _
        (Sets-string w laws (error_detail_details_entry_cases w) k 10 _ _ m.key refl refl)
        (Writes-both w laws (error_detail_details_entry_cases w) k _ _ _ _ _
          (Sets-string w laws (error_detail_details_entry_cases w) k 18 _ _ m.value refl refl)
          (Writes-nothing w laws (error_detail_details_entry_cases w) k m))

  pub error_detail_reads :
      (k : ℕ) (m : ErrorDetail)
      → IsValidErrorDetail m
      → Writes w laws
          (error_detail_cases w)
          (suc k)
          (encode_error_detail w m)
          create_base_error_detail
          m
  unfolding encode_error_detail error_detail_cases create_base_error_detail
  error_detail_reads k m h =
      Writes-both w laws (error_detail_cases w) (suc k) _ _ _ _ _
        (Sets-int32 w laws (error_detail_cases w) (suc k) 8 _ _ m.category refl refl)
        (Writes-both w laws (error_detail_cases w) (suc k) _ _ _ _ _
          (Sets-string w laws (error_detail_cases w) (suc k) 18 _ _ m.code refl refl)
          (Writes-both w laws (error_detail_cases w) (suc k) _ _ _ _ _
            (Sets-string w laws (error_detail_cases w) (suc k) 26 _ _ m.message refl refl)
            (Writes-both w laws (error_detail_cases w) (suc k) _ _ _ _ _
              (Sets-bool w laws (error_detail_cases w) (suc k) 32 _ _ m.retryable refl refl)
              (Writes-both w laws (error_detail_cases w) (suc k) _ _ _ _ _
                (Writes-entries w laws (error_detail_cases w) k 42
                  (error_detail_details_entry_cases w) create_base_error_detail_details_entry
                  (encode_error_detail_details_entry w) _ (λ e. record { key = e.0; value = e.1 })
                  (λ x. record m { details = x }) m.details h
                  (λ e. error_detail_details_entry_reads k (record { key = e.0; value = e.1 })) refl
                  (λ zs e. refl))
                (Writes-nothing w laws (error_detail_cases w) (suc k) m)))))

  pub account_reads :
      (k : ℕ) (m : Account)
      → Writes w laws (account_cases w) k (encode_account w m) create_base_account m
  unfolding encode_account account_cases create_base_account
  account_reads k m =
      Writes-both w laws (account_cases w) k _ _ _ _ _
        (Sets-string w laws (account_cases w) k 10 _ _ m.id refl refl)
        (Writes-both w laws (account_cases w) k _ _ _ _ _
          (Sets-string w laws (account_cases w) k 18 _ _ m.name refl refl)
          (Writes-both w laws (account_cases w) k _ _ _ _ _
            (Sets-string w laws (account_cases w) k 26 _ _ m.username refl refl)
            (Writes-nothing w laws (account_cases w) k m)))
