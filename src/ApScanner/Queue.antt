-- ===== src/ApScanner/Queue.antt =====
-- One queue of a card: its directory, its status, and the device that is published for it.
use k8s_cex_dra_driver.Prelude.{
  ℕ, Text, [], ◌∷◌, ◌++◌, Bool, not, ◌&&◌, ◌||◌, Option, none, some, ◌==◌, text_eq, leb, nat_beq,
  length, if◌then◌else◌,
}
use k8s_cex_dra_driver.Prelude.Exec.{Result, ok, err}
use k8s_cex_dra_driver.Prelude.Dict.{put}
use k8s_cex_dra_driver.Prelude.Int.{ℤ}
use k8s_cex_dra_driver.Prelude.Strings.{bytes, all, cut, trim_space}
use k8s_cex_dra_driver.Os.{Os, FilePath, DirEntry, IoError}
use k8s_cex_dra_driver.Resource.{Device, Attributes}
use k8s_cex_dra_driver.Sysfs.Mkvp.{Mkvps}
use k8s_cex_dra_driver.ApScanner.Tracker.{
  MkvpTracker, MkvpState, evaluate, zcrypt_driver, vfio_ap_driver,
}

pub data CardStatus : Type 0 where
  configured deconfig chkstop offline unknown : CardStatus

pub data QueueStatus : Type 0 where
  online offline bound_vfio unbound unknown : QueueStatus

unfoldable pub card_status_text : CardStatus → Text
card_status_text configured = bytes "configured"
card_status_text deconfig = bytes "deconfig"
card_status_text chkstop = bytes "chkstop"
card_status_text offline = bytes "offline"
card_status_text unknown = bytes "unknown"

unfoldable pub queue_status_text : QueueStatus → Text
queue_status_text online = bytes "online"
queue_status_text offline = bytes "offline"
queue_status_text bound_vfio = bytes "bound-vfio"
queue_status_text unbound = bytes "unbound"
queue_status_text unknown = bytes "unknown"

unfoldable pub mkvp_state_text : MkvpState → Text
mkvp_state_text MkvpState.known = bytes "known"
mkvp_state_text MkvpState.cached = bytes "cached"
mkvp_state_text MkvpState.unknown = bytes "unknown"

pub record ApQueue : Type 0 where
  pub apid : Text
  pub apqi : Text
  pub card_type : Text
  pub generation : ℤ
  pub card_status : CardStatus
  pub queue_status : QueueStatus
  pub driver : Text
  pub mkvps : Mkvps
  pub mkvp_state : MkvpState

unfoldable pub is_hex_lower : ℕ → Bool
is_hex_lower c = (leb b'0' c && leb c b'9') || (leb b'a' c && leb c b'f')

abbrev pub is_hex_of : ℕ → Text → Bool
is_hex_of n s = nat_beq (length s) n && all is_hex_lower s

-- The regular expression `^([0-9a-f]{2})\.([0-9a-f]{4})$` and its two groups. A hexadecimal group
-- holds no dot, so the dot of the pattern is the first one.
unfoldable pub match_queue_name : Text → Option (Text × Text)
match_queue_name name = elim (cut b'.' name) [
  | none ↦ none
  | some (apid, apqi) ↦ if is_hex_of 2 apid && is_hex_of 4 apqi then some (apid, apqi) else none
]

-- The last part of a path; that of an empty path is ".".
unfoldable pub base : FilePath → Text
base [] = bytes "."
base (part ∷ []) = part
base (_ ∷ part ∷ rest) = base (part ∷ rest)

unfoldable pub set_string_attr : Text → Text → Attributes → Attributes
set_string_attr name value = put name (record { string_value = some value; int_value = none })

unfoldable pub set_int_attr : Text → ℤ → Attributes → Attributes
set_int_attr name value = put name (record { string_value = none; int_value = some value })

unfoldable pub set_mkvps : Mkvps → Attributes → Attributes
unfolding set_string_attr
set_mkvps [] attrs = attrs
set_mkvps ((key, value) ∷ mkvps) attrs = set_mkvps mkvps (set_string_attr key value attrs)

-- The attributes that `QueueToDevice` sets before those of the patterns.
unfoldable pub base_attributes : ApQueue → Text → Attributes
unfolding set_string_attr set_int_attr
base_attributes q machine_id =
    let a1 = set_string_attr (bytes "cex.ibm.com/machineid") machine_id [] in
    let a2 = set_string_attr (bytes "cex.ibm.com/apid") q.apid a1 in
    let a3 = set_string_attr (bytes "cex.ibm.com/apqi") q.apqi a2 in
    let a4 = set_string_attr (bytes "cex.ibm.com/type") q.card_type a3 in
    let a5 = set_int_attr (bytes "cex.ibm.com/generation") q.generation a4 in
    let a6 = set_string_attr (bytes "cex.ibm.com/driver") q.driver a5 in
    let a7 =
      set_string_attr (bytes "cex.ibm.com/card_status") (card_status_text q.card_status) a6 in
    let a8 =
      set_string_attr (bytes "cex.ibm.com/queue_status") (queue_status_text q.queue_status) a7 in
    set_string_attr (bytes "cex.ibm.com/mkvp_state") (mkvp_state_text q.mkvp_state) a8

-- `fmt.Sprintf("%s-%s-%s", machineID, apid, apqi)`
unfoldable pub device_name : Text → Text → Text → Text
device_name machine_id apid apqi = machine_id ++ (b'-' ∷ (apid ++ (b'-' ∷ apqi)))

unfoldable pub queue_to_device : ApQueue → Text → Device
unfolding base_attributes set_mkvps device_name
queue_to_device q machine_id = record {
  name = device_name machine_id q.apid q.apqi;
  attributes = set_mkvps q.mkvps (base_attributes q machine_id);
}

module _ (os : Os) where
  open os use {World, read_file, read_link}

  abbrev driver_of_link : Result IoError FilePath → Text
  driver_of_link (err e) = []
  driver_of_link (ok target) = base target

  -- An unbound queue, and one whose link cannot be read, have the driver "".
  unfoldable pub read_queue_driver : FilePath → World → Text × World
  read_queue_driver queue_path w =
      let (r, w') = read_link (queue_path ++ (bytes "driver" ∷ [])) w in (driver_of_link r, w')

  abbrev queue_online : Result IoError Text → QueueStatus
  queue_online (err e) = QueueStatus.unknown
  queue_online (ok text) =
      if trim_space text == bytes "1"
      then QueueStatus.online
      else if trim_space text == bytes "0"
      then QueueStatus.offline
      else QueueStatus.unknown

  unfoldable pub read_queue_status : FilePath → Text → World → QueueStatus × World
  read_queue_status queue_path driver w =
      if driver == []
      then (QueueStatus.unbound, w)
      else if driver == vfio_ap_driver
      then (QueueStatus.bound_vfio, w)
      else if driver == zcrypt_driver
      then (let (r, w') = read_file (queue_path ++ (bytes "online" ∷ [])) w in (queue_online r, w'))
      else (QueueStatus.unknown, w)

  unfoldable pub parse_ap_queue_dir :
      FilePath
      → Text
      → Text
      → Text
      → ℤ
      → CardStatus
      → MkvpTracker
      → World
      → ApQueue × MkvpTracker × World
  unfolding read_queue_driver read_queue_status
  parse_ap_queue_dir path apid apqi card_type generation card_status t w =
      let (driver, w1) = read_queue_driver path w in
      let (queue_status, w2) = read_queue_status path driver w1 in
      let (reading, t', w3) = evaluate os t (apid ++ (b'.' ∷ apqi)) driver path card_type w2 in
      (
        record {
          apid = apid;
          apqi = apqi;
          card_type = card_type;
          generation = generation;
          card_status = card_status;
          queue_status = queue_status;
          driver = driver;
          mkvps = reading.0;
          mkvp_state = reading.1;
        },
        t',
        w3,
      )

  -- An entry that is no queue directory gives no device.
  unfoldable pub scan_queue :
      FilePath
      → DirEntry
      → Text
      → ℤ
      → CardStatus
      → Text
      → MkvpTracker
      → World
      → Option Device × MkvpTracker × World
  unfolding parse_ap_queue_dir
  scan_queue card_path entry card_type generation card_status machine_id t w =
      if not entry.is_dir then (none, t, w) else elim (match_queue_name entry.name) [
        | none ↦ (none, t, w)
        | some (apid, apqi) ↦
            let (queue, t', w') =
              parse_ap_queue_dir (card_path ++ (entry.name ∷ [])) apid apqi card_type generation
                card_status t w in
            (some (queue_to_device queue machine_id), t', w')
      ]
