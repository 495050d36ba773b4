-- ===== src/Driver/Scans.antt =====
-- A scan only reads, so it leaves alone what reads leave alone.
use k8s_cex_dra_driver.Prelude.{
  Text, List, [], ◌∷◌, ◌++◌, Bool, true, false, Option, none, some, ℕ, ◌≡◌, refl, ◌∙◌, text_eq,
  arith,
}
use k8s_cex_dra_driver.Prelude.Exec.{Result, ok, err, Exec}
use k8s_cex_dra_driver.Prelude.Int.{ℤ}
use k8s_cex_dra_driver.Prelude.Strings.{bytes}
use k8s_cex_dra_driver.Os.{Os, FilePath, DirEntry, IoError, not_exist, failed}
use k8s_cex_dra_driver.Resource.{Device, DriverResources}
use k8s_cex_dra_driver.Driver.{Driver, publish_if, after_scan, run_scan_cycle}
use k8s_cex_dra_driver.DeviceState.{DeviceState, compare_and_update}
use k8s_cex_dra_driver.Sysfs.Mkvp.{parse_mkvps, mkvps_path}
use k8s_cex_dra_driver.ApScanner.Tracker.{
  MkvpTracker, QueueState, state_of, file_exists, read_zcrypt_mkvps, evaluate,
}
use k8s_cex_dra_driver.ApScanner.Queue.{
  read_queue_driver, read_queue_status, parse_ap_queue_dir, scan_queue, match_queue_name,
  CardStatus,
}
use k8s_cex_dra_driver.ApScanner.{
  DevicesByCard, ScanError, parse_card_type, read_card_status, add_card, scan_queues, scan_card,
  scan_cards, scan, scan_listing, finish, scan_typed_card, scan_card_entries, CardTypeError,
  type_io, unexpected_format,
}
use k8s_cex_dra_driver.Binding.{ap_devices_path}
use k8s_cex_dra_driver.DeviceState.Quiet.{Quiet}

module _ (os : Os) {A : Type 0} (look : os.World → A) (quiet : Quiet os look) where
  parse_mkvps-quiet :
      (path : FilePath) (card_type : Text) (w : os.World)
      → look (parse_mkvps os path card_type w).1 ≡ look w
  unfolding parse_mkvps
  parse_mkvps-quiet path card_type w = ground (arith, quiet.read_file (mkvps_path path) w)

  file_exists-quiet : (path : FilePath) (w : os.World) → look (file_exists os path w).1 ≡ look w
  unfolding file_exists
  file_exists-quiet path w = quiet.stat path w

  read_zcrypt_mkvps-quiet :
      (path : FilePath) (card_type : Text) (s : QueueState) (w : os.World)
      → look (read_zcrypt_mkvps os path card_type s w).2 ≡ look w
  unfolding read_zcrypt_mkvps
  read_zcrypt_mkvps-quiet path card_type s w = parse_mkvps-quiet path card_type w

  evaluate-quiet :
      (t : MkvpTracker) (apqn driver : Text) (path : FilePath) (card_type : Text) (w : os.World)
      → look (evaluate os t apqn driver path card_type w).2 ≡ look w
  unfolding evaluate
  evaluate-quiet t apqn driver path card_type w = ground (
    arith,
    quiet.stat (mkvps_path path) w,
    read_zcrypt_mkvps-quiet path card_type (state_of t apqn) (os.stat (mkvps_path path) w).1,
  )

  read_queue_status-quiet :
      (path : FilePath) (driver : Text) (w : os.World)
      → look (read_queue_status os path driver w).1 ≡ look w
  unfolding read_queue_status
  read_queue_status-quiet path driver w =
      ground (arith, quiet.read_file (path ++ (bytes "online" ∷ [])) w)

  parse_ap_queue_dir-quiet :
      (path : FilePath) (apid apqi card_type : Text) (generation : ℤ) (status : CardStatus)
      (t : MkvpTracker) (w : os.World)
      → look (parse_ap_queue_dir os path apid apqi card_type generation status t w).2 ≡ look w
  unfolding parse_ap_queue_dir
  parse_ap_queue_dir-quiet path apid apqi card_type generation status t w =
      let (driver, w1) = read_queue_driver os path w in
      let (queue_status, w2) = read_queue_status os path driver w1 in
      ground (
        arith,
        evaluate-quiet t (apid ++ (b'.' ∷ apqi)) driver path card_type w2,
        read_queue_status-quiet path driver w1,
        quiet.read_link (path ++ (bytes "driver" ∷ [])) w,
      )

  scan_queue-quiet :
      (path : FilePath) (entry : DirEntry) (card_type : Text) (generation : ℤ) (status : CardStatus)
      (machine_id : Text) (t : MkvpTracker) (w : os.World)
      → look (scan_queue os path entry card_type generation status machine_id t w).2 ≡ look w
  unfolding scan_queue
  scan_queue-quiet path entry card_type generation status machine_id t w =
      go (match_queue_name entry.name) refl
    where
      go :
          (o : Option (Text × Text))
          → match_queue_name entry.name ≡ o
          → look (scan_queue os path entry card_type generation status machine_id t w).2 ≡ look w
      go none e = ground arith
      go (some (apid, apqi)) e = ground (
        arith,
        parse_ap_queue_dir-quiet (path ++ (entry.name ∷ [])) apid apqi card_type generation status t
            w,
      )

  parse_card_type-quiet :
      (path : FilePath) (w : os.World) → look (parse_card_type os path w).1 ≡ look w
  unfolding parse_card_type
  parse_card_type-quiet path w = quiet.read_file (path ++ (bytes "type" ∷ [])) w

  read_card_status-quiet :
      (path : FilePath) (w : os.World) → look (read_card_status os path w).1 ≡ look w
  unfolding read_card_status
  read_card_status-quiet path w =
      let w1 = (os.read_file (path ++ (bytes "config" ∷ [])) w).1 in
      let w2 = (os.read_file (path ++ (bytes "chkstop" ∷ [])) w1).1 in
      ground (
        arith,
        quiet.read_file (path ++ (bytes "config" ∷ [])) w,
        quiet.read_file (path ++ (bytes "chkstop" ∷ [])) w1,
        quiet.read_file (path ++ (bytes "online" ∷ [])) w2,
      )

  scan_queues-quiet :
      (machine_id : Text) (path : FilePath) (card_type : Text) (generation : ℤ)
      (status : CardStatus) (entries : List DirEntry) (devices : List Device) (t : MkvpTracker)
      (w : os.World)
      → look (scan_queues os machine_id path card_type generation status entries devices t w).2
        ≡ look w
  unfolding scan_queues
  scan_queues-quiet machine_id path card_type generation status [] devices t w = refl
  scan_queues-quiet machine_id path card_type generation status (entry ∷ entries) devices t w =
      let (device, t', w') = scan_queue os path entry card_type generation status machine_id t w in
      scan_queues-quiet machine_id path card_type generation status entries _ t' w'
      ∙ scan_queue-quiet path entry card_type generation status machine_id t w

  module _ (name machine_id : Text) (path : FilePath) where
    scan_card_entries-quiet :
        (typed : Text × ℤ) (r : Result IoError (List DirEntry)) (t : MkvpTracker) (w : os.World)
        → look (scan_card_entries os name machine_id path typed r t w).2 ≡ look w
    scan_card_entries-quiet typed (err failed) t w = refl
    scan_card_entries-quiet typed (err not_exist) t w = refl
    scan_card_entries-quiet (card_type, generation) (ok entries) t w =
        let (status, w') = read_card_status os path w in
        scan_queues-quiet machine_id path card_type generation status entries [] t w'
        ∙ read_card_status-quiet path w

    scan_typed_card-quiet :
        (r : Result CardTypeError (Text × ℤ)) (t : MkvpTracker) (w : os.World)
        → look (scan_typed_card os name machine_id path r t w).2 ≡ look w
    scan_typed_card-quiet (err (type_io failed)) t w = refl
    scan_typed_card-quiet (err (type_io not_exist)) t w = refl
    scan_typed_card-quiet (err (unexpected_format text)) t w = refl
    scan_typed_card-quiet (ok typed) t w =
        let (r, w') = os.read_dir path w in
        scan_card_entries-quiet typed r t w' ∙ quiet.read_dir path w

  scan_card-quiet :
      (entry : DirEntry) (machine_id : Text) (t : MkvpTracker) (w : os.World)
      → look (scan_card os entry machine_id t w).2 ≡ look w
  unfolding scan_card
  scan_card-quiet entry machine_id t w =
      let path = ap_devices_path ++ (entry.name ∷ []) in
      let (r, w') = parse_card_type os path w in
      ground (
        arith,
        scan_typed_card-quiet entry.name machine_id path r t w',
        parse_card_type-quiet path w,
      )

  scan_cards-quiet :
      (machine_id : Text) (entries : List DirEntry) (by_card : DevicesByCard) (t : MkvpTracker)
      (w : os.World)
      → look (scan_cards os machine_id entries by_card t w).2 ≡ look w
  unfolding scan_cards
  scan_cards-quiet machine_id [] by_card t w = refl
  scan_cards-quiet machine_id (entry ∷ entries) by_card t w =
      go (scan_cards-quiet machine_id entries) (scan_card os entry machine_id t w).0 refl
      ∙ scan_card-quiet entry machine_id t w
    where
      go :
          ((by_card : DevicesByCard) (t : MkvpTracker) (w : os.World)
            → look (scan_cards os machine_id entries by_card t w).2 ≡ look w)
          → (r : Result ScanError (Option (List Device)))
          → (scan_card os entry machine_id t w).0 ≡ r
          → look (scan_cards os machine_id (entry ∷ entries) by_card t w).2
            ≡ look (scan_card os entry machine_id t w).2
      go rest (err e) f = rw (f, scan_cards) refl
      go rest (ok devices) f =
          let (_, t', w') = scan_card os entry machine_id t w in
          rw (f, scan_cards) (rest (add_card entry.name devices by_card) t' w')

  scan_listing-quiet :
      (machine_id : Text) (r : Result IoError (List DirEntry)) (t : MkvpTracker) (w : os.World)
      → look (scan_listing os machine_id r t w).2 ≡ look w
  scan_listing-quiet machine_id (err not_exist) t w = refl
  scan_listing-quiet machine_id (err failed) t w = refl
  scan_listing-quiet machine_id (ok entries) t w = scan_cards-quiet machine_id entries [] t w

  finish-quiet :
      (r : Result ScanError DevicesByCard × MkvpTracker × os.World)
      → look (finish os r).2 ≡ look r.2
  finish-quiet (err e, t, w) = refl
  finish-quiet (ok by_card, t, w) = refl

  pub scan-quiet :
      (machine_id : Text) (t : MkvpTracker) (w : os.World)
      → look (scan os machine_id t w).2 ≡ look w
  unfolding scan
  scan-quiet machine_id t w =
      let (r, w') = os.read_dir ap_devices_path w in
      finish-quiet (scan_listing os machine_id r t w')
      ∙ scan_listing-quiet machine_id r t w'
      ∙ quiet.read_dir ap_devices_path w

  module _ {PublishError : Type 0} (sha256_hex : Text → Text)
      (publish : DriverResources → Exec os.World PublishError (Unit {0}))
      (published : (resources : DriverResources) (w : os.World)
        → look (publish resources w).1 ≡ look w) where
    publish_if-quiet :
        (changed : Bool) (s : DeviceState) (w : os.World)
        → look (publish_if os sha256_hex publish changed s w).1 ≡ look w
    publish_if-quiet false s w = refl
    publish_if-quiet true s w = published s.driver_resources w

    after_scan-quiet :
        (r : Result ScanError DevicesByCard) (d : Driver) (w : os.World)
        → look (after_scan os sha256_hex publish r d w).2 ≡ look w
    after_scan-quiet (err e) d w = refl
    after_scan-quiet (ok devices) d w =
        let (changed, s) = compare_and_update sha256_hex devices d.state in
        publish_if-quiet changed s w

    pub run_scan_cycle-quiet :
        (now : os.World → ℕ) (d : Driver) (w : os.World)
        → look (run_scan_cycle os sha256_hex publish now d w).1 ≡ look w
    unfolding run_scan_cycle
    run_scan_cycle-quiet now d w =
        let (r, t, w') = scan os d.machine_id d.mkvp_tracker w in
        after_scan-quiet r (record d { mkvp_tracker = t }) w'
        ∙ scan-quiet d.machine_id d.mkvp_tracker w
