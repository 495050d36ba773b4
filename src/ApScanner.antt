-- ===== src/ApScanner.antt =====
-- internal/apscanner/scanner.go: the scan of the AP bus. Log lines, and the level at which they are
-- logged, are left out.
pub mod Tracker
pub mod Queue
pub mod CardType
use k8s_cex_dra_driver.Prelude.{
  ℕ, Text, List, [], ◌∷◌, ◌++◌, Bool, true, false, not, ◌&&◌, ◌||◌, Option, none, some, ◌==◌,
  text_eq, ltb, leb, nat_beq, length, drop, if◌then◌else◌,
}
use k8s_cex_dra_driver.Prelude.Exec.{Result, ok, err, Exec}
use k8s_cex_dra_driver.Prelude.Dict.{Dict, put}
use k8s_cex_dra_driver.Prelude.Int.{ℤ, atoi}
use k8s_cex_dra_driver.Prelude.Strings.{bytes, all, has_prefix, trim_space, trim_prefix}
use k8s_cex_dra_driver.Os.{Os, FilePath, DirEntry, IoError, not_exist, failed}
use k8s_cex_dra_driver.Resource.{Device}
use k8s_cex_dra_driver.Binding.{ap_devices_path}
use k8s_cex_dra_driver.Sysfs.Mkvp.{cca, ep11}
use k8s_cex_dra_driver.ApScanner.Tracker.{MkvpTracker}
use k8s_cex_dra_driver.ApScanner.Queue.{
  CardStatus, chkstop, deconfig, configured, offline, unknown, is_hex_lower, scan_queue,
}

unfoldable pub accel : Text
accel = bytes "accel"

-- The regular expression `^card([0-9a-f]{2})$`
unfoldable pub is_card_name : Text → Bool
is_card_name name =
    has_prefix name (bytes "card")
    && (nat_beq (length (trim_prefix name (bytes "card"))) 2
        && all is_hex_lower (trim_prefix name (bytes "card")))

-- A read error keeps its kind for `readFailed`, which is false of a text that does not parse.
pub data CardTypeError : Type 0 where
  type_io : IoError → CardTypeError
  unexpected_format : Text → CardTypeError

-- The failures that fail a whole scan: `readFailed` holds of an I/O error other than ENOENT.
pub data ScanError : Type 0 where
  read_devices : IoError → ScanError
  parse_card_error read_card_error : Text → ScanError

-- All but the last byte, and the last byte.
unfoldable pub split_last : Text → Option (Text × ℕ)
split_last [] = none
split_last (c ∷ s) = elim (split_last s) [
  | none ↦ some ([], c)
  | some (front, last) ↦ some (c ∷ front, last)
]

abbrev type_of_char : ℕ → Option Text
type_of_char c =
    if nat_beq c b'C'
    then some cca
    else if nat_beq c b'P'
    then some ep11
    else if nat_beq c b'A'
    then some accel
    else none

abbrev type_and_generation : Option ℤ → Option Text → Option (Text × ℤ)
type_and_generation (some gen) (some card_type) = some (card_type, gen)
type_and_generation _ _ = none

-- The part of `parseCardType` behind the read.
unfoldable pub card_type_of : Text → Option (Text × ℤ)
unfolding split_last
card_type_of content =
    let text = trim_space content in
    if ltb (length text) 5 || not (has_prefix text (bytes "CEX"))
    then none
    else elim (split_last (drop 3 text)) [
      | none ↦ none
      | some (generation, c) ↦ type_and_generation (atoi generation) (type_of_char c)
    ]

abbrev pub DevicesByCard : Type 0
DevicesByCard = Dict Text (List Device)

-- A card without a device is left out.
abbrev pub add_card : Text → Option (List Device) → DevicesByCard → DevicesByCard
add_card name none by_card = by_card
add_card name (some []) by_card = by_card
add_card name (some (d ∷ devices)) by_card = put name (d ∷ devices) by_card

module _ (os : Os) where
  open os use {World, read_file, read_dir}

  abbrev card_type_result : Result IoError Text → Result CardTypeError (Text × ℤ)
  card_type_result (err e) = err (type_io e)
  card_type_result (ok content) = elim (card_type_of content) [
    | none ↦ err (unexpected_format content)
    | some t ↦ ok t
  ]

  unfoldable pub parse_card_type : FilePath → Exec World CardTypeError (Text × ℤ)
  parse_card_type card_path w =
      let (r, w') = read_file (card_path ++ (bytes "type" ∷ [])) w in (card_type_result r, w')

  abbrev online_status : Result IoError Text → CardStatus
  online_status (err failed) = unknown
  online_status (err not_exist) = configured
  online_status (ok online) =
      if trim_space online == bytes "1"
      then configured
      else if trim_space online == bytes "0"
      then offline
      else unknown

  abbrev status_of : FilePath → Text → Text → World → CardStatus × World
  status_of card_path config stop w =
      if trim_space stop == bytes "1"
      then (chkstop, w)
      else if trim_space config == bytes "0"
      then (deconfig, w)
      else if trim_space config == bytes "1"
      then (let (r, w') = read_file (card_path ++ (bytes "online" ∷ [])) w in (online_status r, w'))
      else (unknown, w)

  abbrev chkstop_read : FilePath → Text → Result IoError Text → World → CardStatus × World
  chkstop_read card_path config (err e) w = (unknown, w)
  chkstop_read card_path config (ok stop) w = status_of card_path config stop w

  abbrev config_read : FilePath → Result IoError Text → World → CardStatus × World
  config_read card_path (err e) w = (unknown, w)
  config_read card_path (ok config) w =
      let (r, w') = read_file (card_path ++ (bytes "chkstop" ∷ [])) w in
      chkstop_read card_path config r w'

  unfoldable pub read_card_status : FilePath → World → CardStatus × World
  read_card_status card_path w =
      let (r, w') = read_file (card_path ++ (bytes "config" ∷ [])) w in config_read card_path r w'

  -- The loop of `scanCard` over the entries of the card's directory.
  module _ (machine_id : Text) (card_path : FilePath) (card_type : Text) (generation : ℤ)
      (card_status : CardStatus) where
    unfoldable pub scan_queues :
        List DirEntry → List Device → MkvpTracker → World → List Device × MkvpTracker × World
    scan_queues [] devices t w = (devices, t, w)
    scan_queues (entry ∷ entries) devices t w =
        let (device, t', w') =
          scan_queue os card_path entry card_type generation card_status machine_id t w in
        scan_queues entries (elim device [ none ↦ devices | some d ↦ devices ++ (d ∷ []) ]) t' w'

  -- `ok none` is a card that is passed over.
  abbrev CardResult : Type 0
  CardResult = Result ScanError (Option (List Device)) × MkvpTracker × World

  module _ (name machine_id : Text) (card_path : FilePath) where
    abbrev pub scan_card_entries :
        Text × ℤ → Result IoError (List DirEntry) → MkvpTracker → World → CardResult
    scan_card_entries _ (err failed) t w = (err (read_card_error name), t, w)
    scan_card_entries _ (err not_exist) t w = (ok none, t, w)
    scan_card_entries (card_type, generation) (ok entries) t w =
        let (status, w') = read_card_status card_path w in
        let (devices, t', w'') =
          scan_queues machine_id card_path card_type generation status entries [] t w' in
        (ok (some devices), t', w'')

    abbrev pub scan_typed_card : Result CardTypeError (Text × ℤ) → MkvpTracker → World → CardResult
    scan_typed_card (err (type_io failed)) t w = (err (parse_card_error name), t, w)
    scan_typed_card (err (type_io not_exist)) t w = (ok none, t, w)
    scan_typed_card (err (unexpected_format _)) t w = (ok none, t, w)
    scan_typed_card (ok typed) t w =
        let (r, w') = read_dir card_path w in scan_card_entries typed r t w'

  unfoldable pub scan_card : DirEntry → Text → MkvpTracker → World → CardResult
  unfolding parse_card_type read_card_status scan_queues
  scan_card entry machine_id t w =
      if not entry.is_dir || not (is_card_name entry.name)
      then (ok none, t, w)
      else let card_path = ap_devices_path ++ (entry.name ∷ []) in
        let (r, w') = parse_card_type card_path w in
        scan_typed_card entry.name machine_id card_path r t w'

  unfoldable pub scan_cards :
      Text
      → List DirEntry
      → DevicesByCard
      → MkvpTracker
      → World
      → Result ScanError DevicesByCard × MkvpTracker × World
  unfolding scan_card
  scan_cards machine_id [] by_card t w = (ok by_card, t, w)
  scan_cards machine_id (entry ∷ entries) by_card t w =
      let (r, t', w') = scan_card entry machine_id t w in
      elim r [
        | err e ↦ (err e, t', w')
        | ok devices ↦ scan_cards machine_id entries (add_card entry.name devices by_card) t' w'
      ]

  abbrev pub scan_listing :
      Text
      → Result IoError (List DirEntry)
      → MkvpTracker
      → World
      → Result ScanError DevicesByCard × MkvpTracker × World
  scan_listing machine_id (err not_exist) t w = (ok [], t, w)
  scan_listing machine_id (err failed) t w = (err (read_devices failed), t, w)
  scan_listing machine_id (ok entries) t w = scan_cards machine_id entries [] t w

  -- The deferred function that closes the first scan, if the scan succeeded.
  abbrev pub finish :
      Result ScanError DevicesByCard × MkvpTracker × World
      → Result ScanError DevicesByCard × MkvpTracker × World
  finish (err e, t, w) = (err e, t, w)
  finish (ok by_card, t, w) = (ok by_card, record t { first_scan_done = true }, w)

  unfoldable pub scan :
      Text → MkvpTracker → World → Result ScanError DevicesByCard × MkvpTracker × World
  unfolding scan_cards
  scan machine_id t w =
      let (r, w') = read_dir ap_devices_path w in finish (scan_listing machine_id r t w')
