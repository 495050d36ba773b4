-- ===== src/Version.antt =====
-- internal/version/version.go: the build identity. What the linker stamps and what Go embeds are
-- parameters.
use k8s_cex_dra_driver.Prelude.{
  Text, List, [], ◌∷◌, ◌++◌, false, not, ◌&&◌, Option, none, some, ◌≡◌, ◌==◌, text_eq, text_beq,
  ltb, length, take, arith, if◌then◌else◌,
}
use k8s_cex_dra_driver.Prelude.Strings.{bytes}

pub record Setting : Type 0 where
  pub key : Text
  pub value : Text

pub record BuildInfo : Type 0 where
  pub settings : List Setting
  pub main_version : Text

-- The last value of the key, "" without one.
unfoldable pub setting : Text → Text → List Setting → Text
setting key found [] = found
setting key found (s ∷ settings) = setting key (if s.key == key then s.value else found) settings

unfoldable pub of_revision : Text → Text → Text
of_revision revision modified =
    let short = if ltb 12 (length revision) then take 12 revision else revision in
    if modified == bytes "true"
    then bytes "git-" ++ (short ++ bytes "-dirty")
    else bytes "git-" ++ short

unfoldable pub get : Text → Option BuildInfo → Text
unfolding setting of_revision
get version none = if not (version == []) then version else bytes "unknown"
get version (some info) =
    let revision = setting (bytes "vcs.revision") [] info.settings in
    let modified = setting (bytes "vcs.modified") [] info.settings in
    if not (version == [])
    then version
    else if not (revision == [])
    then of_revision revision modified
    else if not (info.main_version == []) && not (info.main_version == bytes "(devel)")
    then info.main_version
    else bytes "unknown"

-- The build identity is never empty.
pub get-ne : (version : Text) (info : Option BuildInfo) → (get version info == []) ≡ false
unfolding get of_revision bytes text_beq
get-ne version none = ground arith
get-ne version (some info) = ground arith
