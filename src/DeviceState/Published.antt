-- ===== src/DeviceState/Published.antt =====
-- What the devices of a scan carry, as `Prepare` reads it.
pub mod Scan
pub mod Lookup
pub mod Pools
use k8s_cex_dra_driver.Prelude.{
  ℕ, Text, List, [], ◌∷◌, ◌++◌, Bool, true, false, not, ◌&&◌, ◌||◌, Option, none, some, ◌≡◌, refl,
  ◌==◌, text_eq, text_beq, text_beq_iff, nat_beq, nat_beq_iff, length, All, All-snoc, Bool-cases,
  inl, inr, arith, subst, if◌then◌else◌,
}
use k8s_cex_dra_driver.Prelude.Exec.{Result, ok, err}
use k8s_cex_dra_driver.Prelude.Dict.{Dict, get, put, get-put}
use k8s_cex_dra_driver.Prelude.Int.{ℤ}
use k8s_cex_dra_driver.Prelude.Strings.{bytes, cut}
use k8s_cex_dra_driver.Os.{Os, FilePath, DirEntry, IoError, not_exist, failed}
use k8s_cex_dra_driver.Resource.{Device, Attributes, DeviceAttribute}
use k8s_cex_dra_driver.Sysfs.Mkvp.{Mkvps}
use k8s_cex_dra_driver.ApScanner.Tracker.{MkvpTracker}
use k8s_cex_dra_driver.ApScanner.Tracker.Keys.{IsFreeTracker, evaluate-AreFree}
use k8s_cex_dra_driver.Sysfs.Mkvp.Names.{AreFree}
use k8s_cex_dra_driver.ApScanner.Queue.{
  ApQueue, CardStatus, base_attributes, set_mkvps, set_string_attr, set_int_attr, queue_to_device,
  device_name, match_queue_name, is_hex_of, read_queue_driver, read_queue_status,
  parse_ap_queue_dir, scan_queue,
}
use k8s_cex_dra_driver.Binding.{ap_devices_path}
use k8s_cex_dra_driver.ApScanner.{
  DevicesByCard, ScanError, CardTypeError, type_io, unexpected_format, is_card_name,
  parse_card_type, read_card_status, scan_queues, scan_card, scan_cards, scan, scan_card_entries,
  scan_typed_card, scan_listing, finish, add_card,
}
use k8s_cex_dra_driver.DeviceState.Allocation.{
  apid_name, apqi_name, queue_of_device, string_attribute,
}

-- Patterns hide neither number.
get-set_mkvps :
    (m : Mkvps) (attrs : Attributes)
    → AreFree m
    → (get apid_name (set_mkvps m attrs) ≡ get apid_name attrs)
      × (get apqi_name (set_mkvps m attrs) ≡ get apqi_name attrs)
unfolding set_mkvps set_string_attr
get-set_mkvps [] attrs h = (refl, refl)
get-set_mkvps ((key, value) ∷ m) attrs ((f, g), h) =
    let a : DeviceAttribute = record { string_value = some value; int_value = none } in
    ground (
      arith,
      get-set_mkvps m (put key a attrs) h,
      get-put key apid_name a attrs,
      get-put key apqi_name a attrs,
    )

base_attributes_lem :
    (q : ApQueue) (machine_id : Text)
    → (get apid_name (base_attributes q machine_id)
        ≡ some (record { string_value = some q.apid; int_value = none }))
      × (get apqi_name (base_attributes q machine_id)
          ≡ some (record { string_value = some q.apqi; int_value = none }))
unfolding base_attributes set_string_attr set_int_attr get put bytes text_beq apid_name apqi_name
base_attributes_lem q machine_id = (refl, refl)

-- The device stands for a queue, as `Prepare` reads it, whose numbers have the widths of the AP bus,
-- and is named after the machine and the queue.
abbrev pub IsPublished : Text → Device → Type 0
IsPublished machine_id d =
    (apid apqi : Text) × (queue_of_device d ≡ some (apid, apqi))
    × (d.name ≡ device_name machine_id apid apqi)
    × (length apid ≡ 2)
    × (length apqi ≡ 4)

queue_to_device_lem :
    (q : ApQueue) (machine_id : Text)
    → AreFree q.mkvps
    → length q.apid ≡ 2
    → length q.apqi ≡ 4
    → IsPublished machine_id (queue_to_device q machine_id)
unfolding queue_to_device queue_of_device string_attribute
queue_to_device_lem q machine_id h two four = (
  q.apid,
  q.apqi,
  ground (
    arith,
    get-set_mkvps q.mkvps (base_attributes q machine_id) h,
    base_attributes_lem q machine_id,
    text_beq_iff q.apid [],
    text_beq_iff q.apqi [],
  ),
  refl,
  two,
  four,
)

match_queue_name-length :
    (name apid apqi : Text)
    → match_queue_name name ≡ some (apid, apqi)
    → (length apid ≡ 2) × (length apqi ≡ 4)
unfolding match_queue_name
match_queue_name-length name apid apqi h =
    ground (arith, nat_beq_iff (length apid) 2, nat_beq_iff (length apqi) 4)

abbrev IsPublishedOption : Text → Option Device → Type 0
IsPublishedOption machine_id none = Unit
IsPublishedOption machine_id (some d) = IsPublished machine_id d

module _ (machine_id : Text) where
  abbrev pub AllPublished : Option (List Device) → Type 0
  AllPublished none = Unit
  AllPublished (some devices) = All (IsPublished machine_id) devices

  abbrev pub CardPublished : Result ScanError (Option (List Device)) → Type 0
  CardPublished (err e) = Unit
  CardPublished (ok devices) = AllPublished devices

module _ (os : Os) (machine_id : Text) where
  module _ (card_path : FilePath) (card_type : Text) (generation : ℤ)
      (card_status : CardStatus) where
    parse_ap_queue_dir-AreFree :
        (path : FilePath) (apid apqi : Text) (t : MkvpTracker) (w : os.World)
        → IsFreeTracker t
        → let r = parse_ap_queue_dir os path apid apqi card_type generation card_status t w in
          AreFree r.0.mkvps × IsFreeTracker r.1 × (r.0.apid ≡ apid) × (r.0.apqi ≡ apqi)
    unfolding parse_ap_queue_dir
    parse_ap_queue_dir-AreFree path apid apqi t w h =
        let (driver, w1) = read_queue_driver os path w in
        let (queue_status, w2) = read_queue_status os path driver w1 in
        let (a, b) = evaluate-AreFree os driver path card_type t (apid ++ (b'.' ∷ apqi)) w2 h in
        (a, b, refl, refl)

    scan_queue-IsPublished :
        (entry : DirEntry) (t : MkvpTracker) (w : os.World)
        → IsFreeTracker t
        → let r = scan_queue os card_path entry card_type generation card_status machine_id t w in
          IsPublishedOption machine_id r.0 × IsFreeTracker r.1
    unfolding scan_queue
    scan_queue-IsPublished entry t w h = elim (Bool-cases entry.is_dir) [
      | inr file ↦ rw file (tt, h)
      | inl dir ↦ rw dir (go (match_queue_name entry.name) refl)
    ]
      where
        go :
            (o : Option (Text × Text))
            → match_queue_name entry.name ≡ o
            → let r =
                scan_queue os card_path
                  (record entry { is_dir = true })
                  card_type
                  generation
                  card_status
                  machine_id
                  t
                  w in
              IsPublishedOption machine_id r.0 × IsFreeTracker r.1
        go none e = rw e (tt, h)
        go (some (apid, apqi)) e =
            let (a, b, x, y) =
              parse_ap_queue_dir-AreFree (card_path ++ (entry.name ∷ [])) apid apqi t w h in
            let (two, four) = match_queue_name-length entry.name apid apqi e in
            rw e (queue_to_device_lem _ machine_id a (rw x two) (rw y four), b)

    scan_queues-IsPublished :
        (entries : List DirEntry) (devices : List Device) (t : MkvpTracker) (w : os.World)
        → All (IsPublished machine_id) devices
        → IsFreeTracker t
        → let r =
            scan_queues os machine_id card_path card_type generation card_status entries devices t
              w in
          All (IsPublished machine_id) r.0 × IsFreeTracker r.1
    unfolding scan_queues
    scan_queues-IsPublished [] devices t w p h = (p, h)
    scan_queues-IsPublished (entry ∷ entries) devices t w p h =
        let (device, t', w') =
          scan_queue os card_path entry card_type generation card_status machine_id t w in
        let (a, b) = scan_queue-IsPublished entry t w h in
        scan_queues-IsPublished entries
          (elim device [ none ↦ devices | some d ↦ devices ++ (d ∷ []) ]) t' w'
          (with_device device a) b
      where
        with_device :
            (o : Option Device)
            → IsPublishedOption machine_id o
            → All
                (IsPublished machine_id)
                (elim o [ none ↦ devices | some d ↦ devices ++ (d ∷ []) ])
        with_device none a = p
        with_device (some d) a = All-snoc (IsPublished machine_id) devices d p a

  scan_card_entries-CardPublished :
      (name : Text) (card_path : FilePath) (typed : Text × ℤ) (r : Result IoError (List DirEntry))
      (t : MkvpTracker) (w : os.World)
      → IsFreeTracker t
      → let c = scan_card_entries os name machine_id card_path typed r t w in
        CardPublished machine_id c.0 × IsFreeTracker c.1
  scan_card_entries-CardPublished name card_path typed (err failed) t w h = (tt, h)
  scan_card_entries-CardPublished name card_path typed (err not_exist) t w h = (tt, h)
  scan_card_entries-CardPublished name card_path (card_type, generation) (ok entries) t w h =
      let (status, w') = read_card_status os card_path w in
      scan_queues-IsPublished card_path card_type generation status entries [] t w' tt h

  scan_typed_card-CardPublished :
      (name : Text) (card_path : FilePath) (r : Result CardTypeError (Text × ℤ)) (t : MkvpTracker)
      (w : os.World)
      → IsFreeTracker t
      → let c = scan_typed_card os name machine_id card_path r t w in
        CardPublished machine_id c.0 × IsFreeTracker c.1
  scan_typed_card-CardPublished name card_path (err (type_io failed)) t w h = (tt, h)
  scan_typed_card-CardPublished name card_path (err (type_io not_exist)) t w h = (tt, h)
  scan_typed_card-CardPublished name card_path (err (unexpected_format x)) t w h = (tt, h)
  scan_typed_card-CardPublished name card_path (ok typed) t w h =
      let (r, w') = os.read_dir card_path w in
      scan_card_entries-CardPublished name card_path typed r t w' h

  pub scan_card-CardPublished :
      (entry : DirEntry) (t : MkvpTracker) (w : os.World)
      → IsFreeTracker t
      → let c = scan_card os entry machine_id t w in
        CardPublished machine_id c.0 × IsFreeTracker c.1
  unfolding scan_card
  scan_card-CardPublished entry t w h =
      elim (Bool-cases (not entry.is_dir || not (is_card_name entry.name))) [
        | inl other ↦ rw other (tt, h)
        | inr card ↦
            let card_path = ap_devices_path ++ (entry.name ∷ []) in
            let (r, w') = parse_card_type os card_path w in
            rw card (scan_typed_card-CardPublished entry.name card_path r t w' h)
      ]
