-- ===== src/Metadata.antt =====
-- internal/metadata/metadata.go: the KEP-5304 metadata files of a claim. `json.MarshalIndent` and
-- `json.Unmarshal` are the parameters `marshal` and `unmarshal`, `none` where they return an error.
use k8s_cex_dra_driver.Prelude.{
  suc, Text, List, [], ◌∷◌, ◌++◌, Bool, true, false, not, Option, none, some, ◌==◌, text_eq, map,
  if◌then◌else◌,
}
use k8s_cex_dra_driver.Prelude.Exec.{Result, ok, err, Exec, pure, raise, wrap, is_ok, ◌>>=◌, ◌>>◌}
use k8s_cex_dra_driver.Prelude.Dict.{Dict, get}
use k8s_cex_dra_driver.Prelude.Int.{ℤ, pos, increment}
use k8s_cex_dra_driver.Prelude.Strings.{bytes}
use k8s_cex_dra_driver.Os.{Os, FilePath, DirEntry, IoError, not_exist, failed}

pub record ObjectMeta : Type 0 where
  pub name : Text
  pub namespace : Text
  pub uid : Text
  pub generation : ℤ

-- The one attribute that is written is mdevUUID.
pub record DeviceEntry : Type 0 where
  pub driver : Text
  pub pool : Text
  pub name : Text
  pub mdev_uuid : Text

pub record RequestDevices : Type 0 where
  pub name : Text
  pub devices : List DeviceEntry

pub record DeviceMetadata : Type 0 where
  pub kind : Text
  pub api_version : Text
  pub metadata : ObjectMeta
  pub pod_claim_name : Option Text
  pub requests : List RequestDevices

pub record DeviceInfo : Type 0 where
  pub driver : Text
  pub pool : Text
  pub name : Text

pub record ClaimParams : Type 0 where
  pub plugin_data_dir : Text
  pub claim_name : Text
  pub claim_namespace : Text
  pub claim_uid : Text
  pub driver_name : Text
  pub mdev_uuid : Text
  pub pod_claim_name : Text
  pub request_devices : Dict Text (List DeviceInfo)

pub record Mount : Type 0 where
  pub host_path : FilePath
  pub container_path : FilePath

pub data MetadataError : Type 0 where
  marshal_metadata : Text → MetadataError
  create_directory write_metadata : IoError → MetadataError
  remove_directory list_directories : IoError → MetadataError

unfoldable pub claim_dir : Text → Text → FilePath
claim_dir plugin_data_dir claim_uid = plugin_data_dir ∷ bytes "dra-device-metadata" ∷ claim_uid ∷ []

abbrev pub optional_name : Text → Option Text
optional_name name = if name == [] then none else some name

-- The file for one request, at generation 1.
unfoldable pub new_metadata : ClaimParams → Text → DeviceInfo → DeviceMetadata
new_metadata p request_name d = record {
  kind = bytes "DeviceMetadata";
  api_version = bytes "metadata.resource.k8s.io/v1alpha1";
  metadata = record {
    name = p.claim_name;
    namespace = p.claim_namespace;
    uid = p.claim_uid;
    generation = pos 1;
  };
  pod_claim_name = optional_name p.pod_claim_name;
  requests =
      record {
        name = request_name;
        devices =
            record { driver = d.driver; pool = d.pool; name = d.name; mdev_uuid = p.mdev_uuid }
            ∷ [];
      }
      ∷ [];
}

abbrev pub with_generation : DeviceMetadata → ℤ → DeviceMetadata
with_generation meta g = record meta { metadata = record (meta.metadata) { generation = g } }

abbrev pub at_least_one : ℤ → Bool
at_least_one (pos (suc n)) = true
at_least_one _ = false

unfoldable pub container_path_of : ClaimParams → Text → FilePath
container_path_of p request_name =
    bytes "/var/run/kubernetes.io/dra-device-attributes"
    ∷ (if p.pod_claim_name == [] then bytes "resourceclaims" else bytes "resourceclaimtemplates")
    ∷ (if p.pod_claim_name == [] then p.claim_name else p.pod_claim_name)
    ∷ request_name
    ∷ (p.driver_name ++ bytes "-metadata.json")
    ∷ []

module _ (marshal : DeviceMetadata → Option Text) (unmarshal : Text → Option DeviceMetadata) where
  -- The generation against a previous file: kept where the file would stay the same to the byte, one
  -- more where it changes.
  abbrev regenerate : Text → DeviceMetadata → ℤ → DeviceMetadata
  regenerate previous meta g = elim (marshal (with_generation meta g)) [
    | none ↦ with_generation meta g
    | some rendered ↦
        if not (rendered == previous)
        then with_generation meta (increment g)
        else with_generation meta g
  ]

  -- A file that does not decode, or whose generation is below 1, is written anew at generation 1.
  unfoldable pub resolve_generation : Text → DeviceMetadata → DeviceMetadata
  resolve_generation previous meta = elim (unmarshal previous) [
    | none ↦ meta
    | some prev ↦
        if at_least_one prev.metadata.generation
        then regenerate previous meta prev.metadata.generation
        else meta
  ]

  module _ (os : Os) where
    open os use {World, read_file, write_file, mkdir_all, stat, remove_all, read_dir}

    abbrev pub resolve_against : Result IoError Text → DeviceMetadata → DeviceMetadata
    resolve_against (err e) meta = meta
    resolve_against (ok previous) meta = resolve_generation previous meta

    abbrev pub render : DeviceMetadata → Text → Exec World MetadataError Text
    render meta request_name = elim (marshal meta) [
      | none ↦ raise (marshal_metadata request_name)
      | some rendered ↦ pure rendered
    ]

    -- The body of the loop for a request that has a device.
    unfoldable pub write_request : ClaimParams → Text → DeviceInfo → Exec World MetadataError Mount
    write_request p request_name d w =
        let host_dir = claim_dir p.plugin_data_dir p.claim_uid ++ (request_name ∷ []) in
        let host_path = host_dir ++ (bytes "metadata.json" ∷ []) in
        let (previous, w') = read_file host_path w in
        let meta = resolve_against previous (new_metadata p request_name d) in
        let write : Exec World MetadataError Mount = do
          rendered ← render meta request_name
          wrap create_directory (mkdir_all host_dir)
          wrap write_metadata (write_file host_path rendered)
          pure (record { host_path = host_path; container_path = container_path_of p request_name })
        in write w'

    -- The loop, over the names of the requests in the order of the range.
    unfoldable pub write_requests :
        ClaimParams → List Text → List Mount → Exec World MetadataError (List Mount)
    unfolding write_request
    write_requests p [] mounts = pure mounts
    write_requests p (name ∷ names) mounts = elim (get name p.request_devices) [
      | none ↦ write_requests p names mounts
      | some [] ↦ write_requests p names mounts
      | some (d ∷ _) ↦ write_request p name d >>= λ m. write_requests p names (mounts ++ (m ∷ []))
    ]

    unfoldable pub generate_claim_metadata :
        (World → List Text → List Text) → ClaimParams → Exec World MetadataError (List Mount)
    unfolding write_requests
    generate_claim_metadata range p w =
        write_requests p (range w (map (λ (name, _). name) p.request_devices)) [] w

module _ (os : Os) where
  open os use {World, stat, remove_all, read_dir}

  unfoldable pub claim_metadata_exists : Text → Text → World → Bool × World
  claim_metadata_exists plugin_data_dir claim_uid w =
      let (r, w') = stat (claim_dir plugin_data_dir claim_uid) w in (is_ok r, w')

  unfoldable pub delete_claim_metadata : Text → Text → Exec World MetadataError (Unit {0})
  delete_claim_metadata plugin_data_dir claim_uid =
      wrap remove_directory (remove_all (claim_dir plugin_data_dir claim_uid))

  -- Directories of live claims stay; a removal that fails is logged.
  unfoldable pub gc_entry : Text → (Text → World → Bool × World) → DirEntry → World → World
  gc_entry plugin_data_dir live e w =
      if not e.is_dir
      then w
      else let (alive, w') = live e.name w in
        if alive then w' else (remove_all (claim_dir plugin_data_dir e.name) w').1

  unfoldable pub gc_entries : Text → (Text → World → Bool × World) → List DirEntry → World → World
  unfolding gc_entry
  gc_entries plugin_data_dir live [] w = w
  gc_entries plugin_data_dir live (e ∷ entries) w =
      gc_entries plugin_data_dir live entries (gc_entry plugin_data_dir live e w)

  unfoldable pub gc_stale_claim_metadata :
      Text → (Text → World → Bool × World) → Exec World MetadataError (Unit {0})
  unfolding gc_entries
  gc_stale_claim_metadata plugin_data_dir live w =
      let (r, w') = read_dir (plugin_data_dir ∷ bytes "dra-device-metadata" ∷ []) w in
      elim r [
        | ok entries ↦ (ok tt, gc_entries plugin_data_dir live entries w')
        | err not_exist ↦ (ok tt, w')
        | err failed ↦ (err (list_directories failed), w')
      ]
