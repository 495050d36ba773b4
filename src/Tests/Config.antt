-- ===== src/Tests/Config.antt =====
-- Configurations and control-domain modes.
use k8s_cex_dra_driver.Prelude.{
  Text, [], ◌∷◌, ◌++◌, false, Option, none, some, ◌≡◌, ◌≢◌, refl, ◌⊎◌, ◌↔◌, ◌==◌, text_eq, text_beq,
  if◌then◌else◌, arith,
}
use k8s_cex_dra_driver.Prelude.Exec.{ok, err}
use k8s_cex_dra_driver.Prelude.Strings.{bytes}
use k8s_cex_dra_driver.Resource.{AllocationConfig}
use k8s_cex_dra_driver.CryptoConfig.{
  CryptoConfig, Decoded, decode_error, config_error, kind_value, api_version_value, usage_only,
  usage_and_control, all_control_domains, parse, resolve,
}
use k8s_cex_dra_driver.CryptoConfig.ControlDomain.{
  validate_control_domain_mode, mode_not_enabled, IsMask, validate_iff,
}
use k8s_cex_dra_driver.CryptoConfig.Layers.{resolve_last_wins, resolve_malformed}

validate_iff_example :
    ((validate_control_domain_mode all_control_domains ≡ ok tt)
      ↔ ((all_control_domains ≡ usage_only) ⊎ (all_control_domains ≡ usage_and_control)))
    × ((validate_control_domain_mode all_control_domains
          ≡ err (mode_not_enabled all_control_domains))
        ↔ ((all_control_domains ≡ all_control_domains) ⊎ IsMask all_control_domains))
validate_iff_example = validate_iff all_control_domains

-- A decoder of three documents.
abbrev sets_mode : Text → CryptoConfig
sets_mode mode = record {
  kind = kind_value;
  api_version = api_version_value;
  control_domain_mode = mode;
}

abbrev pub decode : Text → Option Decoded
decode raw =
    if raw == bytes "narrow"
    then some (record { config = sets_mode usage_only; more = false })
    else if raw == bytes "wide"
    then some (record { config = sets_mode usage_and_control; more = false })
    else if raw == bytes "quiet"
    then some (record { config = sets_mode []; more = false })
    else none

abbrev driver_name : Text
driver_name = bytes "cex.ibm.com"

abbrev ours : Text → AllocationConfig
ours raw = some (record { driver = driver_name; raw = raw })

abbrev theirs : AllocationConfig
theirs = some (record { driver = bytes "gpu.example.com"; raw = bytes "{" })

parse_wide : parse decode (bytes "wide") ≡ ok (sets_mode usage_and_control)
unfolding parse bytes text_beq kind_value api_version_value
parse_wide = refl

parse_narrow : parse decode (bytes "narrow") ≡ ok (sets_mode usage_only)
unfolding parse bytes text_beq kind_value api_version_value
parse_narrow = refl

parse_quiet : parse decode (bytes "quiet") ≡ ok (sets_mode [])
unfolding parse bytes text_beq kind_value api_version_value
parse_quiet = refl

parse_broken : parse decode (bytes "{") ≡ err decode_error
unfolding parse bytes text_beq
parse_broken = refl

narrow_is_set : usage_only ≢ []
unfolding usage_only bytes
narrow_is_set e = ground arith

resolve_last_wins_example :
    (effective : CryptoConfig) × (resolve decode driver_name (
        (ours (bytes "wide") ∷ theirs ∷ [])
        ++ (ours (bytes "narrow") ∷ theirs ∷ ours (bytes "quiet") ∷ []))
      ≡ ok effective)
    × (effective.control_domain_mode ≡ usage_only)
unfolding bytes text_beq
resolve_last_wins_example =
    resolve_last_wins decode driver_name (ours (bytes "wide") ∷ theirs ∷ [])
      (theirs ∷ ours (bytes "quiet") ∷ []) (ours (bytes "narrow"))
      ((sets_mode usage_and_control, parse_wide), (tt, tt)) refl parse_narrow narrow_is_set
      (tt, ((sets_mode [], parse_quiet, refl), tt))

resolve_malformed_example :
    resolve decode driver_name
      ((ours (bytes "wide") ∷ theirs ∷ []) ++ (ours (bytes "{") ∷ ours (bytes "narrow") ∷ []))
    ≡ err (config_error 2 decode_error)
unfolding bytes text_beq
resolve_malformed_example =
    resolve_malformed decode driver_name (ours (bytes "wide") ∷ theirs ∷ [])
      (ours (bytes "narrow") ∷ []) (ours (bytes "{"))
      ((sets_mode usage_and_control, parse_wide), (tt, tt)) refl parse_broken
