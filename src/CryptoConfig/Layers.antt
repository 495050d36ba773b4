-- ===== src/CryptoConfig/Layers.antt =====
-- How the layers of `Resolve` merge.
use k8s_cex_dra_driver.Prelude.{
  ℕ, suc, ◌+◌, Text, List, [], ◌∷◌, ◌++◌, Option, none, some, ◌≡◌, ◌≢◌, refl, text_eq, text_beq_iff,
  length, All, arith,
}
use native.Mathlib.Nat.{add-zero}
use k8s_cex_dra_driver.Prelude.Exec.{Result, ok, err}
use k8s_cex_dra_driver.Resource.{AllocationConfig}
use k8s_cex_dra_driver.CryptoConfig.{
  CryptoConfig, Decoded, defaults, ParseError, ResolveError, config_error, merge, parse, matching,
  resolve_from, resolve,
}

module _ (decode : Text → Option Decoded) (driver_name : Text) where
  abbrev QuietParams : Option Text → Type 0
  QuietParams none = Unit
  QuietParams (some raw) =
      (parsed : CryptoConfig) × (parse decode raw ≡ ok parsed) × (parsed.control_domain_mode ≡ [])

  abbrev GoodParams : Option Text → Type 0
  GoodParams none = Unit
  GoodParams (some raw) = (parsed : CryptoConfig) × (parse decode raw ≡ ok parsed)

  -- The entry is another driver's, or it parses and sets no mode.
  abbrev pub IsQuiet : AllocationConfig → Type 0
  IsQuiet c = QuietParams (matching decode driver_name c)

  -- The entry is another driver's, or it parses.
  abbrev pub IsWellFormed : AllocationConfig → Type 0
  IsWellFormed c = GoodParams (matching decode driver_name c)

  abbrev from : ℕ → List AllocationConfig → CryptoConfig → Result ResolveError CryptoConfig
  from = resolve_from decode driver_name

  resolve_quiet :
      (i : ℕ) (configs : List AllocationConfig) (effective : CryptoConfig)
      → All IsQuiet configs
      → from i configs effective ≡ ok effective
  unfolding resolve_from merge
  resolve_quiet i [] effective h = refl
  resolve_quiet i (c ∷ configs) effective (hc, h) =
      step (resolve_quiet (i + 1) configs effective h) (matching decode driver_name c) refl hc
    where
      step :
          from (i + 1) configs effective ≡ ok effective
          → (m : Option Text) → matching decode driver_name c ≡ m
          → QuietParams m
          → from i (c ∷ configs) effective ≡ ok effective
      step ih none e q = ground arith
      step ih (some raw) e (parsed, p, empty) =
          ground (arith, text_beq_iff parsed.control_domain_mode [])

  -- The result of the entries in front of a suffix, with which the loop enters the suffix.
  resolve_front :
      (i : ℕ) (before after : List AllocationConfig) (effective : CryptoConfig)
      → All IsWellFormed before
      → (middle : CryptoConfig) × (from i (before ++ after) effective
          ≡ from (i + length before) after middle)
  unfolding resolve_from
  resolve_front i [] after effective h = (effective, rw add-zero refl)
  resolve_front i (c ∷ before) after effective (hc, h) =
      step (λ middle. resolve_front (i + 1) before after middle h) (matching decode driver_name c)
        refl hc
    where
      step :
          ((start : CryptoConfig)
            → (middle : CryptoConfig) × (from (i + 1) (before ++ after) start
                ≡ from (i + 1 + length before) after middle))
          → (m : Option Text) → matching decode driver_name c ≡ m
          → GoodParams m
          → (middle : CryptoConfig) × (from i (c ∷ before ++ after) effective
              ≡ from (i + suc (length before)) after middle)
      step ih none e q = let (middle, p) = ih effective in (middle, ground arith)
      step ih (some raw) e (parsed, p) =
          let (middle, r) = ih (merge effective parsed) in (middle, ground arith)

  module _ (before after : List AllocationConfig) (c : AllocationConfig)
      (good : All IsWellFormed before) {raw : Text}
      (ours : matching decode driver_name c ≡ some raw) where
    -- The last entry for this driver that sets a mode decides it: class or claim, whatever the entries
    -- in front of it set. All entries in front parse, and those behind it for this driver parse and set
    -- none.
    pub resolve_last_wins :
        {parsed : CryptoConfig}
        → parse decode raw ≡ ok parsed
        → parsed.control_domain_mode ≢ []
        → All IsQuiet after
        → (effective : CryptoConfig) × (resolve decode driver_name (before ++ (c ∷ after))
            ≡ ok effective)
          × (effective.control_domain_mode ≡ parsed.control_domain_mode)
    unfolding resolve merge
    resolve_last_wins {parsed} p set quiet =
        let (middle, front) = resolve_front 0 before (c ∷ after) defaults good in
        (
          merge middle parsed,
          ground (
            arith,
            front,
            resolve_quiet (0 + length before + 1) after (merge middle parsed) quiet,
          ),
          ground (arith, text_beq_iff parsed.control_domain_mode []),
        )

    -- The first entry for this driver that does not parse fails the whole resolution, with its index,
    -- whatever stands behind it.
    pub resolve_malformed :
        {e : ParseError}
        → parse decode raw ≡ err e
        → resolve decode driver_name (before ++ (c ∷ after)) ≡ err (config_error (length before) e)
    unfolding resolve
    resolve_malformed p =
        let (middle, front) = resolve_front 0 before (c ∷ after) defaults good in
        ground (arith, front)

  -- With no entry for this driver that sets a mode, the driver's default applies: control domains are
  -- the allocated usage domains.
  pub resolve_unset :
      (configs : List AllocationConfig)
      → All IsQuiet configs
      → resolve decode driver_name configs ≡ ok defaults
  unfolding resolve
  resolve_unset configs h = resolve_quiet 0 configs defaults h
