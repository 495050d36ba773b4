-- ===== src/CryptoConfig.antt =====
-- internal/cryptoconfig: the opaque device configuration and how its layers merge. The strict JSON
-- decoder of `encoding/json` is the parameter `decode`: the fields of the first value and whether
-- more data follows it, or `none` where it returns an error.
pub mod ControlDomain
pub mod Layers
use k8s_cex_dra_driver.Prelude.{
  ℕ, ◌+◌, Text, List, [], ◌∷◌, Bool, true, false, not, Option, none, some, ◌==◌, text_eq,
  if◌then◌else◌,
}
use k8s_cex_dra_driver.Prelude.Exec.{Result, ok, err, map_err}
use k8s_cex_dra_driver.Resource.{OpaqueConfig, AllocationConfig}
use k8s_cex_dra_driver.Prelude.Strings.{bytes}

unfoldable pub kind_value : Text
kind_value = bytes "CryptoConfig"

unfoldable pub api_version_value : Text
api_version_value = bytes "cex.ibm.com/v1alpha1"

unfoldable pub usage_only : Text
usage_only = bytes "usage-only"

unfoldable pub usage_and_control : Text
usage_and_control = bytes "usage-and-control"

unfoldable pub all_control_domains : Text
all_control_domains = bytes "all-control-domains"

pub record CryptoConfig : Type 0 where
  pub kind : Text
  pub api_version : Text
  pub control_domain_mode : Text

abbrev pub defaults : CryptoConfig
defaults = record {
  kind = kind_value;
  api_version = api_version_value;
  control_domain_mode = usage_and_control;
}

pub data ParseError : Type 0 where
  decode_error trailing_data : ParseError
  unexpected_kind unsupported_api_version : Text → ParseError

pub record Decoded : Type 0 where
  pub config : CryptoConfig
  pub more : Bool

-- The error of entry `config[i]`
pub data ResolveError : Type 0 where
  config_error : ℕ → ParseError → ResolveError

abbrev pub check_envelope : Decoded → Result ParseError CryptoConfig
check_envelope d =
    if d.more
    then err trailing_data
    else if not (d.config.kind == kind_value)
    then err (unexpected_kind d.config.kind)
    else if not (d.config.api_version == api_version_value)
    then err (unsupported_api_version d.config.api_version)
    else ok d.config

-- `merge` changes its receiver, which comes back here.
unfoldable pub merge : CryptoConfig → CryptoConfig → CryptoConfig
merge c o =
    if not (o.control_domain_mode == [])
    then record c { control_domain_mode = o.control_domain_mode }
    else c

module _ (decode : Text → Option Decoded) where
  unfoldable pub parse : Text → Result ParseError CryptoConfig
  parse raw = elim (decode raw) [ none ↦ err decode_error | some d ↦ check_envelope d ]

  abbrev pub matching : Text → AllocationConfig → Option Text
  matching driver_name none = none
  matching driver_name (some o) = if o.driver == driver_name then some o.raw else none

  -- The loop of `Resolve` from entry `i` on.
  unfoldable pub resolve_from :
      Text → ℕ → List AllocationConfig → CryptoConfig → Result ResolveError CryptoConfig
  resolve_from driver_name i [] effective = ok effective
  resolve_from driver_name i (c ∷ configs) effective = elim (matching driver_name c) [
    | none ↦ resolve_from driver_name (i + 1) configs effective
    | some raw ↦ elim (parse raw) [
      | err e ↦ err (config_error i e)
      | ok parsed ↦ resolve_from driver_name (i + 1) configs (merge effective parsed)
    ]
  ]

  unfoldable pub resolve : Text → List AllocationConfig → Result ResolveError CryptoConfig
  unfolding resolve_from
  resolve driver_name configs = resolve_from driver_name 0 configs defaults
