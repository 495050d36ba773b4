-- ===== src/DeviceState/Quiet.antt =====
-- A part of the node that the files of the plugin, and all that only reads, leave alone.
use k8s_cex_dra_driver.Prelude.{
  Text, List, [], ◌∷◌, ◌++◌, Option, none, some, ◌≡◌, refl, ap, ◌∙◌, text_eq, map, arith,
}
use k8s_cex_dra_driver.Prelude.Exec.{Result, ok, err, Exec, wrap, continue, pure, ◌>>=◌}
use k8s_cex_dra_driver.Prelude.Dict.{get}
use k8s_cex_dra_driver.Prelude.Strings.{bytes}
use k8s_cex_dra_driver.Prelude.Int.{ℤ, atoi}
use k8s_cex_dra_driver.ApScanner.Queue.{base}
use k8s_cex_dra_driver.Os.{Os, FilePath}
use k8s_cex_dra_driver.DeviceState.Env.{Env}
use k8s_cex_dra_driver.DeviceState.Build.{for_each}
use k8s_cex_dra_driver.Mdev.{MdevError, exists, read_matrix, attribute_path}
use k8s_cex_dra_driver.Metadata.{
  DeviceMetadata, DeviceInfo, ClaimParams, Mount, claim_dir, claim_metadata_exists,
  delete_claim_metadata, marshal_metadata, create_directory, write_metadata, new_metadata,
  container_path_of, render, resolve_against, write_request, write_requests,
  generate_claim_metadata,
}
use k8s_cex_dra_driver.Cdi.{
  Spec, SpecMount, spec_path, generate_claim_spec, vfio_group_from_mdev, delete_claim_spec,
  group_of, rendered_spec, claim_spec, cdi_kind, read_group, make_directory, write_spec,
}

-- The path that `GenerateClaimMetadata` writes to.
abbrev pub metadata_path : Text → Text → Text → FilePath
metadata_path dir uid request =
    (claim_dir dir uid ++ (request ∷ [])) ++ (bytes "metadata.json" ∷ [])

pub record Quiet (os : Os) {A : Type 0} (look : os.World → A) : Type 0 where
  pub read_file : (p : FilePath) (w : os.World) → look (os.read_file p w).1 ≡ look w
  pub stat : (p : FilePath) (w : os.World) → look (os.stat p w).1 ≡ look w
  pub read_dir : (p : FilePath) (w : os.World) → look (os.read_dir p w).1 ≡ look w
  pub read_link : (p : FilePath) (w : os.World) → look (os.read_link p w).1 ≡ look w
  pub glob : (p : FilePath) (w : os.World) → look (os.glob p w).1 ≡ look w
  -- sysfs lets nobody add or remove a file.
  pub remove : (p : FilePath) (w : os.World) → look (os.remove p w).1 ≡ look w
  pub remove_all : (p : FilePath) (w : os.World) → look (os.remove_all p w).1 ≡ look w
  pub mkdir_all : (p : FilePath) (w : os.World) → look (os.mkdir_all p w).1 ≡ look w
  -- No attribute in sysfs has the name of a file of the plugin.
  pub write_spec :
      (root uid text : Text) (w : os.World)
      → look (os.write_file (spec_path root uid) text w).1 ≡ look w
  pub write_metadata :
      (dir uid request text : Text) (w : os.World)
      → look (os.write_file (metadata_path dir uid request) text w).1 ≡ look w

-- Less of a part is left alone too.
pub Quiet-map :
    (os : Os) {A B : Type 0} (look : os.World → A) (f : A → B)
    → Quiet os look
    → Quiet os (λ w. f (look w))
Quiet-map os look f q = record {
  read_file = λ p w. ap f (q.read_file p w);
  stat = λ p w. ap f (q.stat p w);
  read_dir = λ p w. ap f (q.read_dir p w);
  read_link = λ p w. ap f (q.read_link p w);
  glob = λ p w. ap f (q.glob p w);
  remove = λ p w. ap f (q.remove p w);
  remove_all = λ p w. ap f (q.remove_all p w);
  mkdir_all = λ p w. ap f (q.mkdir_all p w);
  write_spec = λ root uid text w. ap f (q.write_spec root uid text w);
  write_metadata = λ dir uid request text w. ap f (q.write_metadata dir uid request text w);
}

module _ {W A : Type 0} (look : W → A) where
  -- The call leaves the part alone, whatever it answers.
  pub record Leaves {E B : Type 0} (m : Exec W E B) : Type 0 where
    pub at : (w : W) → look (m w).1 ≡ look w

  pub Leaves-call : {E B : Type 0} (m : Exec W E B) → ((w : W) → look (m w).1 ≡ look w) → Leaves m
  Leaves-call m h = record { at = h }

  pub Leaves-pure : {E B : Type 0} (r : Result E B) → Leaves (λ w. (r, w))
  Leaves-pure r = record { at = λ w. refl }

  pub Leaves-wrap : {E F B : Type 0} {m : Exec W E B} (f : E → F) → Leaves m → Leaves (wrap f m)
  Leaves-wrap f h = record { at = λ w. h.at w }

  pub look-continue :
      {E B C : Type 0} (r : Result E B) (f : B → Exec W E C) (w : W)
      → ((b : B) → Leaves (f b))
      → look (continue r f w).1 ≡ look w
  look-continue (ok b) f w h = (h b).at w
  look-continue (err e) f w h = refl

  -- A chain whose first step changes nothing leaves the part alone if the rest does from there.
  pub look-pure :
      {E B C : Type 0} (r : Result E B) (f : B → Exec W E C) (w : W)
      → ((b : B) → r ≡ ok b → look (f b w).1 ≡ look w)
      → look (continue r f w).1 ≡ look w
  look-pure (ok b) f w h = h b refl
  look-pure (err e) f w h = refl

  pub Leaves-bind :
      {E B C : Type 0} {m : Exec W E B} {f : B → Exec W E C}
      → Leaves m
      → ((b : B) → Leaves (f b))
      → Leaves (m >>= f)
  Leaves-bind {m} {f} h g = record { at = λ w. look-continue (m w).0 f (m w).1 g ∙ h.at w }

module _ (os : Os) {A : Type 0} (look : os.World → A) where
  pub for_each-Leaves :
      (env : Env os) (f : Text → Exec os.World MdevError (Unit {0}))
      → ((t : Text) → Leaves look (f t))
      → (texts : List Text) → Leaves look (for_each os env f texts)
  unfolding for_each
  for_each-Leaves env f h [] = Leaves-pure look (ok tt)
  for_each-Leaves env f h (t ∷ texts) = Leaves-bind look (h t) (λ u. for_each-Leaves env f h texts)

module _ (os : Os) {A : Type 0} (look : os.World → A) (quiet : Quiet os look) where
  pub exists-quiet : (uuid : Text) (w : os.World) → look (exists os uuid w).1 ≡ look w
  unfolding exists
  exists-quiet uuid w = quiet.stat _ w

  pub read_matrix-quiet : (uuid : Text) (w : os.World) → look (read_matrix os uuid w).1 ≡ look w
  unfolding read_matrix
  read_matrix-quiet uuid w =
      ground (arith, quiet.read_file (attribute_path uuid (bytes "matrix")) w)

  pub claim_metadata_exists-quiet :
      (dir uid : Text) (w : os.World) → look (claim_metadata_exists os dir uid w).1 ≡ look w
  unfolding claim_metadata_exists
  claim_metadata_exists-quiet dir uid w = quiet.stat _ w

  pub delete_claim_metadata-quiet :
      (dir uid : Text) (w : os.World) → look (delete_claim_metadata os dir uid w).1 ≡ look w
  unfolding delete_claim_metadata
  delete_claim_metadata-quiet dir uid w = ground (arith, quiet.remove_all (claim_dir dir uid) w)

  pub delete_claim_spec-quiet :
      (root uid : Text) (w : os.World) → look (delete_claim_spec os root uid w).1 ≡ look w
  unfolding delete_claim_spec
  delete_claim_spec-quiet root uid w = quiet.remove _ w

  group_of-Leaves : (group : Option ℤ) → Leaves look (group_of os group)
  group_of-Leaves none = Leaves-pure look _
  group_of-Leaves (some group) = Leaves-pure look _

  rendered_spec-Leaves : (text : Option Text) → Leaves look (rendered_spec os text)
  rendered_spec-Leaves none = Leaves-pure look _
  rendered_spec-Leaves (some text) = Leaves-pure look _

  vfio_group_from_mdev-Leaves : (uuid : Text) → Leaves look (vfio_group_from_mdev os uuid)
  unfolding vfio_group_from_mdev
  vfio_group_from_mdev-Leaves uuid =
      Leaves-bind look
        (Leaves-wrap look read_group (
          Leaves-call look (os.read_link (attribute_path uuid (bytes "iommu_group")))
            (quiet.read_link _)))
        (λ target. group_of-Leaves (atoi (base target)))

  pub generate_claim_spec-Leaves :
      (marshal : Spec → Option Text) (root uid : Text) (mounts : List SpecMount)
      → Leaves look (generate_claim_spec os marshal root uid mounts)
  unfolding generate_claim_spec
  generate_claim_spec-Leaves marshal root uid mounts =
      Leaves-bind look (vfio_group_from_mdev-Leaves uid) λ group.
        Leaves-bind look (rendered_spec-Leaves (marshal (claim_spec os uid mounts group)))
          λ rendered.
            Leaves-bind look
              (Leaves-wrap look make_directory
                (Leaves-call look (os.mkdir_all (root ∷ [])) (quiet.mkdir_all _)))
              λ made.
                Leaves-bind look
                  (Leaves-wrap look write_spec (
                    Leaves-call look (os.write_file (spec_path root uid) rendered)
                      (quiet.write_spec root uid rendered)))
                  λ written. Leaves-pure look (ok (cdi_kind ++ (b'=' ∷ uid)))

  module _ (marshal : DeviceMetadata → Option Text) (unmarshal : Text → Option DeviceMetadata) where
    render-Leaves :
        (meta : DeviceMetadata) (request : Text)
        → Leaves look (render marshal unmarshal os meta request)
    render-Leaves meta request = go (marshal meta) refl
      where
        go :
            (r : Option Text)
            → marshal meta ≡ r
            → Leaves look (render marshal unmarshal os meta request)
        go none e = rw (e, render) (Leaves-pure look (err (marshal_metadata request)))
        go (some rendered) e = rw (e, render) (Leaves-pure look (ok rendered))

    write_request-Leaves :
        (p : ClaimParams) (request : Text) (d : DeviceInfo)
        → Leaves look (write_request marshal unmarshal os p request d)
    unfolding write_request
    write_request-Leaves p request d = record {
      at = λ w. (written w).at _ ∙ quiet.read_file path w;
    }
      where
        host_dir : FilePath
        host_dir = claim_dir p.plugin_data_dir p.claim_uid ++ (request ∷ [])

        path : FilePath
        path = host_dir ++ (bytes "metadata.json" ∷ [])

        mount : Mount
        mount = record { host_path = path; container_path = container_path_of p request }

        meta : os.World → DeviceMetadata
        meta w =
            resolve_against marshal unmarshal os (os.read_file path w).0 (new_metadata p request d)

        written :
            (w : os.World)
            → Leaves look (
                render marshal unmarshal os (meta w) request >>= λ rendered.
                wrap create_directory (os.mkdir_all host_dir) >>= λ made.
                wrap write_metadata (os.write_file path rendered) >>= λ done. pure mount)
        written w = Leaves-bind look (render-Leaves (meta w) request) λ rendered.
            Leaves-bind look
              (Leaves-wrap look create_directory
                (Leaves-call look (os.mkdir_all host_dir) (quiet.mkdir_all host_dir)))
              λ made.
                Leaves-bind look
                  (Leaves-wrap look write_metadata (
                    Leaves-call look (os.write_file path rendered)
                      (quiet.write_metadata p.plugin_data_dir p.claim_uid request rendered)))
                  λ done. Leaves-pure look (ok mount)

    write_requests-Leaves :
        (p : ClaimParams) (names : List Text) (mounts : List Mount)
        → Leaves look (write_requests marshal unmarshal os p names mounts)
    unfolding write_requests
    write_requests-Leaves p [] mounts = Leaves-pure look (ok mounts)
    write_requests-Leaves p (name ∷ names) mounts =
        go (get name p.request_devices) refl (write_requests-Leaves p names)
      where
        go :
            (r : Option (List DeviceInfo))
            → get name p.request_devices ≡ r
            → ((mounts' : List Mount)
                → Leaves look (write_requests marshal unmarshal os p names mounts'))
            → Leaves look (write_requests marshal unmarshal os p (name ∷ names) mounts)
        go none e rest = rw (e, write_requests) (rest mounts)
        go (some []) e rest = rw (e, write_requests) (rest mounts)
        go (some (d ∷ ds)) e rest =
            rw (e, write_requests)
              (Leaves-bind look (write_request-Leaves p name d) λ m. rest (mounts ++ (m ∷ [])))

    pub generate_claim_metadata-Leaves :
        (range : os.World → List Text → List Text) (p : ClaimParams)
        → Leaves look (generate_claim_metadata marshal unmarshal os range p)
    unfolding generate_claim_metadata
    generate_claim_metadata-Leaves range p = record {
      at = λ w.
          (write_requests-Leaves p (range w (map (λ (name, _). name) p.request_devices)) []).at w;
    }
