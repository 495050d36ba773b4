-- ===== src/Sysfs/Mkvp/Names.antt =====
-- The names under which patterns are read: none is that of a queue's number.
use k8s_cex_dra_driver.Prelude.{
  Text, List, [], ◌∷◌, false, Option, none, some, ◌≡◌, ◌⊎◌, inl, inr, refl, ◌==◌, text_eq, text_beq,
  text_beq_iff, All, map, Bool-cases, arith, subst,
}
use k8s_cex_dra_driver.Prelude.Exec.{Result, ok, err}
use k8s_cex_dra_driver.Prelude.Dict.{Dict, get, put, or_default}
use k8s_cex_dra_driver.Prelude.Strings.{bytes, trim_space, cut, split}
use k8s_cex_dra_driver.Os.{Os, FilePath, IoError}
use k8s_cex_dra_driver.Sysfs.Mkvp.{
  Mkvps, MkvpError, cca, ep11, cca_mkvp_key_map, ep11_mkvp_key_map, mkvp_unknown_value,
  extract_hex_value, truncate_wkvp, is_placeholder_state, store_value, parse_entry, parse_line,
  parse_mkvp_lines, parse_mkvps, mkvps_path, unknown_mkvps,
}
use k8s_cex_dra_driver.DeviceState.Allocation.{apid_name, apqi_name}

-- An attribute name that is not one of the two that name a queue.
abbrev pub IsFree : Text → Type 0
IsFree name = ((name == apid_name) ≡ false) × ((name == apqi_name) ≡ false)

abbrev pub AreFree : Mkvps → Type 0
AreFree = All (λ (name, _). IsFree name)

abbrev MapsFree : Dict Text Text → Type 0
MapsFree = All (λ (_, name). IsFree name)

cca-MapsFree : MapsFree cca_mkvp_key_map
unfolding cca_mkvp_key_map bytes apid_name apqi_name text_beq
cca-MapsFree =
    let f : (false ≡ false) × (false ≡ false) = (refl, refl) in
    (f, (f, (f, (f, (f, (f, (f, (f, (f, tt)))))))))

ep11-MapsFree : MapsFree ep11_mkvp_key_map
unfolding ep11_mkvp_key_map bytes apid_name apqi_name text_beq
ep11-MapsFree = ((refl, refl), ((refl, refl), tt))

map-AreFree :
    (keys : Dict Text Text)
    → MapsFree keys
    → AreFree (map (λ (_, attr). (attr, mkvp_unknown_value)) keys)
map-AreFree [] h = tt
map-AreFree ((k, attr) ∷ keys) (f, h) = (f, map-AreFree keys h)

pub unknown_mkvps-AreFree : (card_type : Text) → AreFree (unknown_mkvps card_type)
unfolding unknown_mkvps
unknown_mkvps-AreFree card_type = elim (Bool-cases (card_type == cca)) [
  | inl a ↦ rw a (map-AreFree cca_mkvp_key_map cca-MapsFree)
  | inr b ↦ elim (Bool-cases (card_type == ep11)) [
    | inl c ↦ rw (b, c) (map-AreFree ep11_mkvp_key_map ep11-MapsFree)
    | inr d ↦ rw (b, d) tt
  ]
]

put-AreFree : (name value : Text) (m : Mkvps) → IsFree name → AreFree m → AreFree (put name value m)
unfolding put
put-AreFree name value [] f h = (f, tt)
put-AreFree name value ((j, v) ∷ m) f (g, h) = elim (Bool-cases (j == name)) [
  | inl same ↦ rw same (f, h)
  | inr other ↦ rw other (g, put-AreFree name value m f h)
]

get-IsFree :
    (keys : Dict Text Text) (key : Text)
    → MapsFree keys
    → (or_default [] (get key keys) ≡ []) ⊎ IsFree (or_default [] (get key keys))
unfolding get
get-IsFree [] key h = inl refl
get-IsFree ((j, name) ∷ keys) key (f, h) = elim (Bool-cases (j == key)) [
  | inl same ↦ rw same (inr f)
  | inr other ↦ rw other (get-IsFree keys key h)
]

store_value-AreFree :
    (keys : Dict Text Text) (value_of : Text → Text) (key raw : Text) (m m' : Mkvps)
    → MapsFree keys
    → AreFree m
    → store_value keys value_of key raw m ≡ ok m'
    → AreFree m'
unfolding store_value
store_value-AreFree keys value_of key raw m m' hk h e =
    elim (Bool-cases (or_default [] (get key keys) == [])) [
      | inl blank ↦ let p : m ≡ m' = ground arith in subst AreFree p h
      | inr named ↦ elim (Bool-cases (is_placeholder_state raw)) [
        | inl bad ↦ ground arith
        | inr good ↦
            let p : put (or_default [] (get key keys)) (value_of raw) m ≡ m' = ground arith in
            elim (get-IsFree keys key hk) [
              | inl empty ↦ ground (arith, text_beq_iff (or_default [] (get key keys)) [])
              | inr f ↦
                  subst AreFree p (put-AreFree (or_default [] (get key keys)) (value_of raw) m f h)
            ]
      ]
    ]

parse_entry-AreFree :
    (card_type key raw : Text) (m m' : Mkvps)
    → AreFree m
    → parse_entry card_type key raw m ≡ ok m'
    → AreFree m'
unfolding parse_entry
parse_entry-AreFree card_type key raw m m' h e = elim (Bool-cases (card_type == cca)) [
  | inl a ↦
      store_value-AreFree cca_mkvp_key_map extract_hex_value key raw m m' cca-MapsFree h (rw a at e)
  | inr b ↦ elim (Bool-cases (card_type == ep11)) [
    | inl c ↦
        store_value-AreFree ep11_mkvp_key_map (λ v. truncate_wkvp (extract_hex_value v)) key raw m
          m' ep11-MapsFree h (rw (b, c) at e)
    | inr d ↦ let p : m ≡ m' = ground arith in subst AreFree p h
  ]
]

parse_line-AreFree :
    (card_type line : Text) (m m' : Mkvps)
    → AreFree m
    → parse_line card_type line m ≡ ok m'
    → AreFree m'
unfolding parse_line
parse_line-AreFree card_type line m m' h e = elim (Bool-cases (trim_space line == [])) [
  | inl blank ↦ let p : m ≡ m' = ground arith in subst AreFree p h
  | inr full ↦ go full (cut b':' (trim_space line)) refl
]
  where
    go :
        (trim_space line == []) ≡ false
        → (r : Option (Text × Text)) → cut b':' (trim_space line) ≡ r
        → AreFree m'
    go full none f = let p : m ≡ m' = ground arith in subst AreFree p h
    go full (some (key, raw)) f =
        parse_entry-AreFree card_type (trim_space key) (trim_space raw) m m' h (rw (full, f) at e)

parse_mkvp_lines-AreFree :
    (card_type : Text) (lines : List Text) (m m' : Mkvps)
    → AreFree m
    → parse_mkvp_lines card_type lines m ≡ ok m'
    → AreFree m'
unfolding parse_mkvp_lines
parse_mkvp_lines-AreFree card_type [] m m' h e = let p : m ≡ m' = ground arith in subst AreFree p h
parse_mkvp_lines-AreFree card_type (line ∷ lines) m m' h e =
    go (parse_mkvp_lines-AreFree card_type lines) (parse_line card_type line m) refl
  where
    go :
        ((a b : Mkvps) → AreFree a → parse_mkvp_lines card_type lines a ≡ ok b → AreFree b)
        → (r : Result MkvpError Mkvps) → parse_line card_type line m ≡ r
        → AreFree m'
    go ih (err x) f = ground arith
    go ih (ok mid) f =
        ih mid m' (parse_line-AreFree card_type line m mid h f) (rw (parse_mkvp_lines, f) at e)

pub parse_mkvps-AreFree :
    (os : Os) (queue_path : FilePath) (card_type : Text) (w : os.World) (m : Mkvps)
    → (parse_mkvps os queue_path card_type w).0 ≡ ok m
    → AreFree m
unfolding parse_mkvps
parse_mkvps-AreFree os queue_path card_type w m e =
    go (os.read_file (mkvps_path queue_path) w).0 refl
  where
    go : (r : Result IoError Text) → (os.read_file (mkvps_path queue_path) w).0 ≡ r → AreFree m
    go (err x) f = ground arith
    go (ok content) f = parse_mkvp_lines-AreFree card_type (split b'\n' content) [] m tt (rw f at e)
