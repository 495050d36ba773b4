-- ===== src/DeviceState/Hash/Order.antt =====
-- The hash of the devices does not depend on the order of Go's ranges over maps.
use k8s_cex_dra_driver.Prelude.{
  Text, List, [], ◌∷◌, ◌++◌, ◌≡◌, refl, ◌∙◌, sym, ap, map, IsNodup, text_eq,
}
use k8s_cex_dra_driver.Prelude.Dict.{Dict}
use k8s_cex_dra_driver.Prelude.Sort.{sort_by, Reorder}
use k8s_cex_dra_driver.Prelude.Sort.Laws.{sort_by-Reorder, sort_by-map}
use k8s_cex_dra_driver.Resource.{Device}
use k8s_cex_dra_driver.DeviceState.Hash.{
  device_bytes, hash_input, compute_devices_hash, concat_texts,
}

-- The same devices, whose attributes may come in another order.
abbrev pub AreAlike : List Device → List Device → Type 0
AreAlike [] [] = Unit
AreAlike (d ∷ devices) (e ∷ others) =
    (d.name ≡ e.name)
    × Reorder d.attributes e.attributes
    × IsNodup (map (λ (k, _). k) d.attributes)
    × AreAlike devices others
AreAlike _ _ = ⊥

abbrev pub AreAlikeCards : Dict Text (List Device) → Dict Text (List Device) → Type 0
AreAlikeCards [] [] = Unit
AreAlikeCards ((card, devices) ∷ cards) ((other, others) ∷ rest) =
    (card ≡ other) × AreAlike devices others × AreAlikeCards cards rest
AreAlikeCards _ _ = ⊥

device_bytes-Reorder :
    (d e : Device)
    → d.name ≡ e.name
    → Reorder d.attributes e.attributes
    → IsNodup (map (λ (k, _). k) d.attributes)
    → device_bytes d ≡ device_bytes e
unfolding device_bytes
device_bytes-Reorder d e named r u = rw (named, sort_by-Reorder (λ (k, _). k) r u) refl

-- A device with what it adds to the input of the hash.
abbrev named_bytes : Device → Text × Text
named_bytes d = (d.name, device_bytes d)

named_bytes-AreAlike :
    (devices others : List Device)
    → AreAlike devices others
    → map named_bytes devices ≡ map named_bytes others
named_bytes-AreAlike [] [] h = refl
named_bytes-AreAlike [] (e ∷ others) h = absurd h
named_bytes-AreAlike (d ∷ devices) [] h = absurd h
named_bytes-AreAlike (d ∷ devices) (e ∷ others) (named, r, u, h) =
    rw (device_bytes-Reorder d e named r u, named, named_bytes-AreAlike devices others h) refl

abbrev sorted_bytes : Dict Text Text → Text
sorted_bytes entries = concat_texts (map (λ (_, s). s) (sort_by (λ (k, _). k) entries))

map-map :
    {A B C : Type 0} (f : B → C) (g : A → B) (xs : List A)
    → map f (map g xs) ≡ map (λ x. f (g x)) xs
map-map f g [] = refl
map-map f g (x ∷ xs) = ap (λ r. f (g x) ∷ r) (map-map f g xs)

abbrev card_bytes : List Device → Text
card_bytes devices = concat_texts (map device_bytes (sort_by (λ d. d.name) devices))

card_bytes-sorted :
    (devices : List Device) → card_bytes devices ≡ sorted_bytes (map named_bytes devices)
card_bytes-sorted devices =
    rw (sort_by-map (λ (k, _). k) named_bytes devices)
      (ap concat_texts (sym (map-map (λ (_, s). s) named_bytes (sort_by (λ d. d.name) devices))))

card_bytes-AreAlike :
    (devices others : List Device)
    → AreAlike devices others
    → card_bytes devices ≡ card_bytes others
card_bytes-AreAlike devices others h =
    card_bytes-sorted devices
    ∙ ap sorted_bytes (named_bytes-AreAlike devices others h)
    ∙ sym (card_bytes-sorted others)

abbrev card_entry : Text × List Device → Text × Text
card_entry (card, devices) = (card, card ++ card_bytes devices)

card_entry-AreAlikeCards :
    (cards others : Dict Text (List Device))
    → AreAlikeCards cards others
    → map card_entry cards ≡ map card_entry others
card_entry-AreAlikeCards [] [] h = refl
card_entry-AreAlikeCards [] (c ∷ others) h = absurd h
card_entry-AreAlikeCards (c ∷ cards) [] h = absurd h
card_entry-AreAlikeCards ((card, devices) ∷ cards) ((other, rest) ∷ others) (named, a, h) =
    rw (named, card_bytes-AreAlike devices rest a, card_entry-AreAlikeCards cards others h) refl

hash_input-sorted :
    (cards : Dict Text (List Device)) → hash_input cards ≡ sorted_bytes (map card_entry cards)
unfolding hash_input
hash_input-sorted cards =
    rw (sort_by-map (λ (k, _). k) card_entry cards)
      (ap concat_texts (sym (map-map (λ (_, s). s) card_entry (sort_by (λ (card, _). card) cards))))

hash_input-Reorder :
    (cards others : Dict Text (List Device))
    → Reorder cards others
    → IsNodup (map (λ (card, _). card) cards)
    → hash_input cards ≡ hash_input others
unfolding hash_input
hash_input-Reorder cards others r u = rw (sort_by-Reorder (λ (card, _). card) r u) refl

-- Two reports of the same cards, whose cards and whose devices' attributes come in another order, have
-- the same hash.
pub compute_devices_hash-Reorder :
    (sha256_hex : Text → Text) (cards between others : Dict Text (List Device))
    → Reorder cards between
    → AreAlikeCards between others
    → IsNodup (map (λ (card, _). card) cards)
    → compute_devices_hash sha256_hex cards ≡ compute_devices_hash sha256_hex others
unfolding compute_devices_hash
compute_devices_hash-Reorder sha256_hex cards between others r h u = ap sha256_hex (
    hash_input-Reorder cards between r u
    ∙ hash_input-sorted between
    ∙ ap sorted_bytes (card_entry-AreAlikeCards between others h)
    ∙ sym (hash_input-sorted others))
