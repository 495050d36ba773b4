-- ===== src/Features/Locked.antt =====
-- What of a setting reaches the library.
use k8s_cex_dra_driver.Prelude.{
  Text, List, [], ◌∷◌, Bool, true, false, not, ◌++◌, ◌&&◌, Option, none, some, map, ◌||◌, ◌≡◌, ◌⊎◌,
  refl, ◌∙◌, ap, ◌==◌, text_eq, text_beq_iff, nat_beq, All, contains, Bool-cases, inl, inr, arith,
  if◌then◌else◌,
}
use k8s_cex_dra_driver.Prelude.Strings.{split, join, all, cut, trim_space}
use k8s_cex_dra_driver.Prelude.Strings.Laws.{split-append, cut-append}
use k8s_cex_dra_driver.Prelude.Dict.{Dict}
use k8s_cex_dra_driver.Features.{
  FeatureGate, FeatureSpec, Warning, locked_names, pair_name, keep_pairs, graduated_gates, set,
}

abbrev no_comma : Text → Bool
no_comma s = all (λ c. not (nat_beq c b',')) s

abbrev no_equals : Text → Bool
no_equals s = all (λ c. not (nat_beq c b'=')) s

abbrev pub HaveNoComma : List Text → Type 0
HaveNoComma pairs = All (λ pair. no_comma pair ≡ true) pairs

split_one : (s : Text) → no_comma s ≡ true → split b',' s ≡ s ∷ []
unfolding split all
split_one [] h = refl
split_one (c ∷ s) h = ground (arith, split_one s)

split-join :
    (pair : Text) (pairs : List Text)
    → HaveNoComma (pair ∷ pairs)
    → split b',' (join b',' (pair ∷ pairs)) ≡ pair ∷ pairs
unfolding join
split-join pair [] (h, hs) = split_one pair h
split-join pair (next ∷ pairs) (h, hs) =
    split-append b',' pair (join b',' (next ∷ pairs)) h
    ∙ ap (λ r. pair ∷ r) (split-join next pairs hs)

keep_pairs-split :
    (graduated pairs : List Text)
    → HaveNoComma pairs
    → keep_pairs graduated (split b',' (join b',' pairs)) ≡ keep_pairs graduated pairs
unfolding join split keep_pairs
keep_pairs-split graduated [] h = ground (arith, text_beq_iff [] [])
keep_pairs-split graduated (pair ∷ pairs) h = ap (keep_pairs graduated) (split-join pair pairs h)

-- A setting of one gate, as a user writes it.
pub record Setting : Type 0 where
  pub gate : Text
  pub value : Option Text

unfoldable pub print_setting : Setting → Text
print_setting s = elim s.value [ none ↦ s.gate | some value ↦ s.gate ++ (b'=' ∷ value) ]

-- The name has no `=`, and no comma is in the setting.
abbrev pub IsSetting : Setting → Type 0
IsSetting s = (no_equals s.gate ≡ true) × (no_comma (print_setting s) ≡ true)

-- Some gate of the library has this name and is locked to its default.
unfoldable pub is_locked : Dict Text FeatureSpec → Text → Bool
is_locked [] name = false
is_locked ((gate, spec) ∷ all) name = (gate == name && spec.lock_to_default) || is_locked all name

-- The settings that are not empty and name no locked gate, in their order, as they were written.
unfoldable pub unlocked : Dict Text FeatureSpec → List Setting → List Text
unlocked gates [] = []
unlocked gates (s ∷ settings) =
    let rest = unlocked gates settings in
    if print_setting s == [] || is_locked gates (trim_space s.gate)
    then rest
    else print_setting s ∷ rest

-- A warning for each other setting that is not empty.
unfoldable pub locked_warnings : Dict Text FeatureSpec → List Setting → List Warning
locked_warnings gates [] = []
locked_warnings gates (s ∷ settings) =
    let rest = locked_warnings gates settings in
    if not (print_setting s == []) && is_locked gates (trim_space s.gate)
    then record { gate = trim_space s.gate; setting = trim_space (print_setting s) } ∷ rest
    else rest

cut-no_equals : (s : Text) → no_equals s ≡ true → cut b'=' s ≡ none
unfolding cut all
cut-no_equals [] h = refl
cut-no_equals (c ∷ s) h = ground (arith, cut-no_equals s)

pair_name-print_setting :
    (s : Setting) → IsSetting s → pair_name (print_setting s) ≡ trim_space s.gate
unfolding pair_name print_setting
pair_name-print_setting s (h, _) = go s.value refl
  where
    go : (v : Option Text) → s.value ≡ v → pair_name (print_setting s) ≡ trim_space s.gate
    go none e = ground (arith, cut-no_equals s.gate h)
    go (some value) e = ground (arith, cut-append b'=' s.gate value h)

contains-locked_names :
    (gates : Dict Text FeatureSpec) (name : Text)
    → contains (locked_names gates) name ≡ is_locked gates name
unfolding locked_names is_locked contains
contains-locked_names [] name = refl
contains-locked_names ((gate, spec) ∷ all) name = ground (arith, contains-locked_names all name)

keep_pairs-print_setting :
    (gates : Dict Text FeatureSpec) (settings : List Setting)
    → All IsSetting settings
    → keep_pairs (locked_names gates) (map print_setting settings)
      ≡ (unlocked gates settings, locked_warnings gates settings)
unfolding keep_pairs unlocked locked_warnings
keep_pairs-print_setting gates [] h = refl
keep_pairs-print_setting gates (s ∷ settings) (h, hs) = ground (
  arith,
  keep_pairs-print_setting gates settings hs,
  pair_name-print_setting s h,
  contains-locked_names gates (trim_space s.gate),
)

printed-HaveNoComma :
    (settings : List Setting) → All IsSetting settings → HaveNoComma (map print_setting settings)
printed-HaveNoComma [] h = tt
printed-HaveNoComma (s ∷ settings) (h, hs) = (h.1, printed-HaveNoComma settings hs)

unlocked-HaveNoComma :
    (gates : Dict Text FeatureSpec) (settings : List Setting)
    → All IsSetting settings
    → HaveNoComma (unlocked gates settings)
unfolding unlocked
unlocked-HaveNoComma gates [] h = tt
unlocked-HaveNoComma gates (s ∷ settings) (h, hs) =
    elim (Bool-cases (print_setting s == [] || is_locked gates (trim_space s.gate))) [
      | inl out ↦ rw out (unlocked-HaveNoComma gates settings hs)
      | inr in_ ↦ rw in_ (h.1, unlocked-HaveNoComma gates settings hs)
    ]

-- Of settings whose names have no `=`, and which have no comma, joined by commas, the library is given
-- the text of exactly those that are not empty and name no gate that is locked to its default, in their
-- order and as they were written; there is a warning for each other that is not empty; and the answer
-- and the gates are the library's. Split at commas, as the library splits it, the text has these
-- settings again, if there are any. Names are compared without the white space around them.
pub set-unlocked :
    (lib : FeatureGate) (settings : List Setting) (g : lib.Gates)
    → All IsSetting settings
    → let kept = unlocked (lib.get_all g) settings in
      let (r, warnings, g') = set lib (join b',' (map print_setting settings)) g in
      ((r, g') ≡ lib.set (join b',' kept) g)
      × (warnings ≡ locked_warnings (lib.get_all g) settings)
      × ((kept ≡ []) ⊎ (split b',' (join b',' kept) ≡ kept))
unfolding set graduated_gates
set-unlocked lib settings g h =
    let all = lib.get_all g in
    let kept : keep_pairs (locked_names all) (split b',' (join b',' (map print_setting settings)))
        ≡ (unlocked all settings, locked_warnings all settings) =
      keep_pairs-split (locked_names all) (map print_setting settings)
        (printed-HaveNoComma settings h)
      ∙ keep_pairs-print_setting all settings h in
    (
      rw kept refl,
      rw kept refl,
      again (unlocked all settings) (unlocked-HaveNoComma all settings h),
    )
  where
    again :
        (kept : List Text) → HaveNoComma kept → (kept ≡ []) ⊎ (split b',' (join b',' kept) ≡ kept)
    again [] k = inl refl
    again (pair ∷ rest) k = inr (split-join pair rest k)
