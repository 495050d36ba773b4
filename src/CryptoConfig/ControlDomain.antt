-- ===== src/CryptoConfig/ControlDomain.antt =====
-- internal/cryptoconfig/controldomain.go: the closed set of control-domain modes.
use k8s_cex_dra_driver.Prelude.{
  ℕ, Text, ◌++◌, Bool, true, false, ◌&&◌, ◌||◌, ◌≡◌, ◌⊎◌, inl, inr, ◌↔◌, refl, ◌==◌, text_eq,
  text_beq, text_beq_iff, length, leb, nat_beq, arith, if◌then◌else◌,
}
use k8s_cex_dra_driver.Prelude.Exec.{Result, ok, err}
use k8s_cex_dra_driver.Prelude.Strings.{bytes, all, has_prefix, trim_prefix}
use k8s_cex_dra_driver.Prelude.Strings.Laws.{
  has_prefix-append, trim_prefix-append, append-trim_prefix,
}
use k8s_cex_dra_driver.CryptoConfig.{usage_only, usage_and_control, all_control_domains}

pub data ModeState : Type 0 where
  unknown enabled not_enabled : ModeState

-- The two failures that `ValidateControlDomainMode` words apart.
pub data ModeError : Type 0 where
  mode_not_enabled unknown_mode : Text → ModeError

unfoldable pub is_hex_any_case : ℕ → Bool
is_hex_any_case c =
    (leb b'0' c && leb c b'9') || ((leb b'a' c && leb c b'f') || (leb b'A' c && leb c b'F'))

unfoldable pub mask_prefix : Text
mask_prefix = bytes "0x"

-- The regular expression `^0x[0-9a-fA-F]{64}$`
unfoldable pub is_custom_mask : Text → Bool
is_custom_mask mode =
    has_prefix mode mask_prefix
    && (nat_beq (length (trim_prefix mode mask_prefix)) 64
        && all is_hex_any_case (trim_prefix mode mask_prefix))

unfoldable pub classify_control_domain_mode : Text → ModeState
classify_control_domain_mode mode =
    if mode == usage_only || mode == usage_and_control
    then enabled
    else if mode == all_control_domains
    then not_enabled
    else if is_custom_mask mode
    then not_enabled
    else unknown

unfoldable pub validate_control_domain_mode : Text → Result ModeError (Unit {0})
unfolding classify_control_domain_mode
validate_control_domain_mode mode = elim (classify_control_domain_mode mode) [
  | enabled ↦ ok tt
  | not_enabled ↦ err (mode_not_enabled mode)
  | unknown ↦ err (unknown_mode mode)
]

-- A mask is "0x" in front of 64 hexadecimal digits.
abbrev pub IsMask : Text → Type 0
IsMask mode =
    (digits : Text) × (mode ≡ mask_prefix ++ digits)
    × (length digits ≡ 64)
    × (all is_hex_any_case digits ≡ true)

is_custom_mask→IsMask : (mode : Text) → is_custom_mask mode ≡ true → IsMask mode
unfolding is_custom_mask
is_custom_mask→IsMask mode h = (
  trim_prefix mode mask_prefix,
  append-trim_prefix mask_prefix mode (ground arith),
  ground arith,
  ground arith,
)

IsMask→is_custom_mask : (mode : Text) → IsMask mode → is_custom_mask mode ≡ true
unfolding is_custom_mask
IsMask→is_custom_mask mode (digits, e, n, h) =
    rw e
      (ground (arith, has_prefix-append mask_prefix digits, trim_prefix-append mask_prefix digits))

modes_apart :
    (text_beq all_control_domains usage_only ≡ false)
    × (text_beq all_control_domains usage_and_control ≡ false)
    × (is_custom_mask usage_only ≡ false)
    × (is_custom_mask usage_and_control ≡ false)
unfolding all_control_domains usage_only usage_and_control bytes text_beq is_custom_mask mask_prefix
    has_prefix
modes_apart = (refl, refl, refl, refl)

abbrev Refused : Text → Type 0
Refused mode = validate_control_domain_mode mode ≡ err (mode_not_enabled mode)

Refused-test :
    (mode : Text) → Refused mode → (mode ≡ all_control_domains) ⊎ (is_custom_mask mode ≡ true)
unfolding validate_control_domain_mode
Refused-test mode h = ground (arith, text_beq_iff mode all_control_domains)

test-Refused :
    (mode : Text) → (mode ≡ all_control_domains) ⊎ (is_custom_mask mode ≡ true) → Refused mode
unfolding validate_control_domain_mode
test-Refused mode h = ground (
  arith,
  modes_apart.0,
  modes_apart.1,
  modes_apart.2,
  modes_apart.3,
  text_beq_iff mode usage_only,
  text_beq_iff mode usage_and_control,
  text_beq_iff mode all_control_domains,
)

validate_accepts_iff :
    (mode : Text)
    → (validate_control_domain_mode mode ≡ ok tt)
      ↔ ((mode ≡ usage_only) ⊎ (mode ≡ usage_and_control))
unfolding validate_control_domain_mode
validate_accepts_iff mode =
    ground (arith, text_beq_iff mode usage_only, text_beq_iff mode usage_and_control)

-- The driver accepts a mode exactly if it is one of the two that are bounded by the claim's own
-- allocation, and refuses it as known but not enabled exactly if it is all-control-domains or a 256-bit
-- hex mask.
pub validate_iff :
    (mode : Text)
    → ((validate_control_domain_mode mode ≡ ok tt)
        ↔ ((mode ≡ usage_only) ⊎ (mode ≡ usage_and_control)))
      × ((validate_control_domain_mode mode ≡ err (mode_not_enabled mode))
          ↔ ((mode ≡ all_control_domains) ⊎ IsMask mode))
validate_iff mode = (
  validate_accepts_iff mode,
  (
    λ h. elim (Refused-test mode h) [ inl a ↦ inl a | inr m ↦ inr (is_custom_mask→IsMask mode m) ],
    λ s. test-Refused mode (elim s [ inl a ↦ inl a | inr m ↦ inr (IsMask→is_custom_mask mode m) ]),
  ),
)
