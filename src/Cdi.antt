-- ===== src/Cdi.antt =====
-- internal/cdi/cdi.go: the CDI spec files of prepared claims. `json.MarshalIndent` is the parameter
-- `marshal`, `none` where it returns an error.
pub mod Collect
use k8s_cex_dra_driver.Prelude.{
  Text, List, [], ◌∷◌, ◌++◌, Bool, Option, none, some, ◌==◌, text_eq, if◌then◌else◌,
}
use k8s_cex_dra_driver.Prelude.Exec.{Result, ok, err, Exec, pure, raise, wrap, ◌>>=◌, ◌>>◌}
use k8s_cex_dra_driver.Prelude.Int.{ℤ, atoi, format_int}
use k8s_cex_dra_driver.Prelude.Strings.{bytes, trim_prefix, trim_suffix}
use k8s_cex_dra_driver.Os.{Os, FilePath, IoError, not_exist, failed}
use k8s_cex_dra_driver.Mdev.{attribute_path}
use k8s_cex_dra_driver.ApScanner.Queue.{base}

pub record SpecMount : Type 0 where
  pub host_path : FilePath
  pub container_path : FilePath
  pub options : List Text

-- The parts of the spec that are not fixed: one device, its two device nodes and its mounts.
pub record Spec : Type 0 where
  pub version : Text
  pub kind : Text
  pub device_name : Text
  pub device_nodes : List Text
  pub mounts : List SpecMount

pub data CdiError : Type 0 where
  read_group remove_spec make_directory write_spec : IoError → CdiError
  parse_group marshal_spec : CdiError

unfoldable pub cdi_kind : Text
cdi_kind = bytes "ibm.com/vfio-ap-passthrough"

unfoldable pub spec_prefix : Text
spec_prefix = bytes "ibm.com-vfio-ap-passthrough-"

unfoldable pub spec_path : Text → Text → FilePath
spec_path cdi_root claim_uid = cdi_root ∷ (spec_prefix ++ (claim_uid ++ bytes ".json")) ∷ []

module _ (os : Os) where
  open os use {World, read_link, write_file, mkdir_all, remove, glob}

  abbrev pub group_of : Option ℤ → Exec World CdiError ℤ
  group_of none = raise parse_group
  group_of (some group) = pure group

  unfoldable pub vfio_group_from_mdev : Text → Exec World CdiError ℤ
  vfio_group_from_mdev uuid = do
    target ← wrap read_group (read_link (attribute_path uuid (bytes "iommu_group")))
    group_of (atoi (base target))

  abbrev pub rendered_spec : Option Text → Exec World CdiError Text
  rendered_spec none = raise marshal_spec
  rendered_spec (some text) = pure text

  unfoldable pub claim_spec : Text → List SpecMount → ℤ → Spec
  claim_spec claim_uid mounts group = record {
    version = bytes "0.5.0";
    kind = cdi_kind;
    device_name = claim_uid;
    device_nodes = (bytes "/dev/vfio/" ++ format_int group) ∷ bytes "/dev/vfio/vfio" ∷ [];
    mounts = mounts;
  }

  unfoldable pub generate_claim_spec :
      (Spec → Option Text) → Text → Text → List SpecMount → Exec World CdiError Text
  unfolding vfio_group_from_mdev
  generate_claim_spec marshal cdi_root claim_uid mounts = do
    group ← vfio_group_from_mdev claim_uid
    rendered ← rendered_spec (marshal (claim_spec claim_uid mounts group))
    wrap make_directory (mkdir_all (cdi_root ∷ []))
    wrap write_spec (write_file (spec_path cdi_root claim_uid) rendered)
    pure (cdi_kind ++ (b'=' ∷ claim_uid))

  abbrev absent_is_ok : Result IoError (Unit {0}) → Result CdiError (Unit {0})
  absent_is_ok (ok _) = ok tt
  absent_is_ok (err not_exist) = ok tt
  absent_is_ok (err failed) = err (remove_spec failed)

  unfoldable pub delete_claim_spec : Text → Text → Exec World CdiError (Unit {0})
  delete_claim_spec cdi_root claim_uid w =
      let (r, w') = remove (spec_path cdi_root claim_uid) w in (absent_is_ok r, w')

  -- The claim that a file of the glob belongs to.
  unfoldable pub claim_of_spec : FilePath → Text
  claim_of_spec p = trim_suffix (trim_prefix (base p) spec_prefix) (bytes ".json")

  -- Files of live claims, and one with no claim in its name, stay; a removal that fails is logged.
  unfoldable pub gc_spec : (Text → World → Bool × World) → FilePath → World → World
  unfolding claim_of_spec
  gc_spec live p w =
      if claim_of_spec p == []
      then w
      else let (alive, w') = live (claim_of_spec p) w in if alive then w' else (remove p w').1

  unfoldable pub gc_specs : (Text → World → Bool × World) → List FilePath → World → World
  unfolding gc_spec
  gc_specs live [] w = w
  gc_specs live (p ∷ ps) w = gc_specs live ps (gc_spec live p w)

  unfoldable pub gc_stale_claim_specs :
      Text → (Text → World → Bool × World) → Exec World IoError (Unit {0})
  unfolding gc_specs
  gc_stale_claim_specs cdi_root live = do
    matches ← glob (cdi_root ∷ (spec_prefix ++ bytes "*.json") ∷ [])
    λ w. (ok tt, gc_specs live matches w)
