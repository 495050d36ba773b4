-- ===== src/Cdi/Collect.antt =====
-- The names of spec files, and the collection of those whose claims are gone.
use k8s_cex_dra_driver.Prelude.{
  Text, [], ◌++◌, Bool, ◌≡◌, ◌≢◌, text_eq, text_beq_iff, arith, if◌then◌else◌,
}
use mathlib.Core.List.{reverse, reverse-append, reverse-reverse}
use k8s_cex_dra_driver.Prelude.Strings.{bytes, trim_suffix}
use k8s_cex_dra_driver.Prelude.Strings.Laws.{trim_prefix-append}
use k8s_cex_dra_driver.Os.{Os}
use k8s_cex_dra_driver.ApScanner.Queue.{base}
use k8s_cex_dra_driver.Cdi.{spec_prefix, spec_path, claim_of_spec, gc_spec}

trim_suffix-append : (s suffix : Text) → trim_suffix (s ++ suffix) suffix ≡ s
unfolding trim_suffix
trim_suffix-append s suffix =
    rw (reverse-append s suffix, trim_prefix-append (reverse suffix) (reverse s))
      (reverse-reverse s)

-- The file name that is written for a claim gives the claim back.
pub claim_of_spec-spec_path :
    (os : Os) (cdi_root claim_uid : Text)
    → claim_of_spec os (spec_path cdi_root claim_uid) ≡ claim_uid
unfolding claim_of_spec spec_path base
claim_of_spec-spec_path os cdi_root claim_uid =
    rw (trim_prefix-append spec_prefix (claim_uid ++ bytes ".json"))
      (trim_suffix-append claim_uid (bytes ".json"))

module _ (os : Os) (live : Text → os.World → Bool × os.World) where
  -- The collection asks of the file that is written for a claim whether this very claim is live, and
  -- removes this file if it is not; a live claim keeps its file.
  pub gc_spec-spec_path :
      (cdi_root claim_uid : Text) (w : os.World)
      → claim_uid ≢ []
      → gc_spec os live (spec_path cdi_root claim_uid) w ≡ (
          let (alive, w') = live claim_uid w in
          if alive then w' else (os.remove (spec_path cdi_root claim_uid) w').1)
  unfolding gc_spec
  gc_spec-spec_path cdi_root claim_uid w named =
      ground (arith, claim_of_spec-spec_path os cdi_root claim_uid, text_beq_iff claim_uid [])
