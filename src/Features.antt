-- ===== src/Features.antt =====
-- internal/features/features.go: the feature gates. The library `featuregate` of component-base is the
-- parameter `FeatureGate`, over a state of any type.
pub mod Locked
use k8s_cex_dra_driver.Prelude.{
  Text, List, [], ◌∷◌, ◌++◌, Bool, true, false, not, ◌&&◌, ◌||◌, Option, none, some, ◌==◌, text_eq,
  map, contains, if◌then◌else◌,
}
use k8s_cex_dra_driver.Prelude.Exec.{Result, Exec}
use k8s_cex_dra_driver.Prelude.Dict.{Dict}
use k8s_cex_dra_driver.Prelude.Sort.{sort_by}
use k8s_cex_dra_driver.Prelude.Strings.{bytes, trim_space, cut, split, join}

pub data Stage : Type 0 where
  alpha beta ga deprecated : Stage

pub record FeatureSpec : Type 0 where
  pub default : Bool
  pub lock_to_default : Bool
  pub pre_release : Stage

unfoldable pub container_workload : Text
container_workload = bytes "ContainerWorkload"

unfoldable pub virtual_machine_workload : Text
virtual_machine_workload = bytes "VirtualMachineWorkload"

unfoldable pub default_feature_gates : Dict Text FeatureSpec
default_feature_gates =
    (container_workload, record { default = false; lock_to_default = false; pre_release = alpha })
    ∷ (
      virtual_machine_workload,
      record { default = true; lock_to_default = false; pre_release = beta },
    )
    ∷ []

-- The calls of a MutableFeatureGate. `get_all` lists the map in the order of a range over it.
pub record FeatureGate : Type 1 where
  pub Gates : Type 0
  pub GateError : Type 0
  pub set : Text → Exec Gates GateError (Unit {0})
  pub get_all : Gates → Dict Text FeatureSpec
  pub enabled : Gates → Text → Bool
  pub known_features : Gates → List Text

-- The name in front of the first `=`, if there is one.
unfoldable pub pair_name : Text → Text
pair_name pair = elim (cut b'=' pair) [
  | none ↦ trim_space pair
  | some (name, value) ↦ trim_space name
]

-- The gate and the setting of a warning
pub record Warning : Type 0 where
  pub gate : Text
  pub setting : Text

-- The loop over the pairs: those for the library, and the warnings for the others.
unfoldable pub keep_pairs : List Text → List Text → List Text × List Warning
unfolding pair_name
keep_pairs graduated [] = ([], [])
keep_pairs graduated (pair ∷ pairs) =
    let (kept, warnings) = keep_pairs graduated pairs in
    if pair == []
    then (kept, warnings)
    else if contains graduated (pair_name pair)
    then (kept, record { gate = pair_name pair; setting = trim_space pair } ∷ warnings)
    else (pair ∷ kept, warnings)

unfoldable pub locked_names : Dict Text FeatureSpec → List Text
locked_names [] = []
locked_names ((name, spec) ∷ all) =
    let rest = locked_names all in if spec.lock_to_default then name ∷ rest else rest

abbrev show_bool : Bool → Text
show_bool true = bytes "true"
show_bool false = bytes "false"

unfoldable pub unlocked_ga : Dict Text FeatureSpec → List Text
unlocked_ga [] = []
unlocked_ga ((name, spec) ∷ all) =
    let rest = unlocked_ga all in
    elim spec.pre_release [
      | ga ↦
          if not spec.lock_to_default
          then (name
              ++ (bytes "=true|false (GA - default=" ++ (show_bool spec.default ++ bytes ")")))
            ∷ rest
          else rest
      | _ ↦ rest
    ]

module _ (lib : FeatureGate) where
  open lib use {Gates, GateError, get_all, enabled}

  unfoldable pub graduated_gates : Gates → List Text
  unfolding locked_names
  graduated_gates g = locked_names (get_all g)

  unfoldable pub set : Text → Gates → Result GateError (Unit {0}) × List Warning × Gates
  unfolding keep_pairs graduated_gates
  set value g =
      let (kept, warnings) = keep_pairs (graduated_gates g) (split b',' value) in
      let (r, g') = lib.set (join b',' kept) g in (r, warnings, g')

  unfoldable pub summary : Gates → Text
  unfolding sort_by
  summary g = join b' ' (
      map (λ name. name ++ (b'=' ∷ show_bool (enabled g name)))
        (sort_by (λ name. name) (map (λ (name, _). name) (get_all g))))

  unfoldable pub known_features : Gates → List Text
  unfolding unlocked_ga sort_by
  known_features g = sort_by (λ entry. entry) (lib.known_features g ++ unlocked_ga (get_all g))
