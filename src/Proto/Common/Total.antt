-- ===== src/Proto/Common/Total.antt =====
-- Decoding ends on every input: the versions, errors and accounts of meta/v1/common.ts.
use meta_go.Prelude.{ℕ, ◌≤◌, List, some, length, arith, ◌≡◌}
use meta_go.Wire.{Wire}
use meta_go.Wire.Laws.{WireLaws}
use meta_go.Wire.Bounded.{IsForward, decode_embedded-Within, set_by-Within, set_message-Within}
use meta_go.Proto.Common.{
  protocol_version_cases, build_info_cases, create_base_error_detail_details_entry,
  error_detail_details_entry_cases, error_detail_cases, account_cases,
}

module _ {Byte : Type 0} (w : Wire Byte) (laws : WireLaws w) where
  uint32_forward :
      (b rest : List Byte) (n : ℕ) → w.read_uint32 b ≡ some (n, rest) → length rest ≤ length b
  uint32_forward b rest n e = omega (arith, laws.uint32_takes b rest n e)

  pub protocol_version-IsForward : IsForward (protocol_version_cases w)
  unfolding protocol_version_cases
  protocol_version-IsForward = (
    set_by-Within _ _ (λ b rest a e. uint32_forward b rest a e),
    (set_by-Within _ _ (λ b rest a e. uint32_forward b rest a e), tt),
  )

  pub build_info-IsForward : IsForward (build_info_cases w)
  unfolding build_info_cases
  build_info-IsForward = (
    set_by-Within _ _ laws.string_forward,
    (
      set_by-Within _ _ laws.string_forward,
      (
        set_by-Within _ _ laws.string_forward,
        (set_by-Within _ _ laws.string_forward, (set_by-Within _ _ laws.string_forward, tt)),
      ),
    ),
  )

  pub error_detail_details_entry-IsForward : IsForward (error_detail_details_entry_cases w)
  unfolding error_detail_details_entry_cases
  error_detail_details_entry-IsForward =
      (set_by-Within _ _ laws.string_forward, (set_by-Within _ _ laws.string_forward, tt))

  pub error_detail-IsForward : IsForward (error_detail_cases w)
  unfolding error_detail_cases
  error_detail-IsForward = (
    set_by-Within _ _ laws.int32_forward,
    (
      set_by-Within _ _ laws.string_forward,
      (
        set_by-Within _ _ laws.string_forward,
        (
          set_by-Within _ _ laws.bool_forward,
          (
            set_message-Within _ _ (
                decode_embedded-Within w laws (error_detail_details_entry_cases w)
                  error_detail_details_entry-IsForward create_base_error_detail_details_entry),
            tt,
          ),
        ),
      ),
    ),
  )

  pub account-IsForward : IsForward (account_cases w)
  unfolding account_cases
  account-IsForward = (
    set_by-Within _ _ laws.string_forward,
    (set_by-Within _ _ laws.string_forward, (set_by-Within _ _ laws.string_forward, tt)),
  )
