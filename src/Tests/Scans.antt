-- ===== src/Tests/Scans.antt =====
-- Scans, and the patterns of a queue over time.
use k8s_cex_dra_driver.Prelude.{
  ℕ, zero, suc, Text, List, [], ◌∷◌, true, ◌≡◌, refl, ◌==◌, text_eq, text_beq, if◌then◌else◌, arith,
}
use k8s_cex_dra_driver.Prelude.Exec.{Result, ok, err}
use k8s_cex_dra_driver.Prelude.Dict.{get}
use k8s_cex_dra_driver.Prelude.Strings.{bytes}
use k8s_cex_dra_driver.Os.{Os, FilePath, DirEntry, IoError, failed, not_exist}
use k8s_cex_dra_driver.Resource.{Device}
use k8s_cex_dra_driver.Sysfs.Mkvp.{cca}
use k8s_cex_dra_driver.ApScanner.Tracker.{new_mkvp_tracker, zcrypt_driver}
use k8s_cex_dra_driver.ApScanner.Tracker.History.{Call}
use k8s_cex_dra_driver.ApScanner.Tracker.Keys.{IsFreeTracker}
use k8s_cex_dra_driver.ApScanner.Queue.{device_name}
use k8s_cex_dra_driver.ApScanner.{DevicesByCard, scan}
use k8s_cex_dra_driver.Sample.Claim.{first, second, device_of}
use k8s_cex_dra_driver.DeviceState.Allocation.{queue_of_device, apid_name, apqi_name}
use k8s_cex_dra_driver.DeviceState.Published.{IsPublished}
use k8s_cex_dra_driver.DeviceState.Published.Scan.{AreCards, scan-IsPublished}

-- A bus with one card of type CCA and one queue, whose mkvps file can be read at first.
abbrev patterns : Text
patterns = bytes "AES CUR: valid 0x1122\n"

abbrev read_card : FilePath → ℕ → Result IoError Text × ℕ
read_card (_ ∷ _ ∷ name ∷ []) n = (
  if name == bytes "type"
      then ok (bytes "CEX8C\n")
      else if name == bytes "chkstop"
      then ok (bytes "0\n")
      else ok (bytes "1\n"),
  n,
)
read_card (_ ∷ _ ∷ _ ∷ name ∷ []) zero =
    (if name == bytes "mkvps" then ok patterns else ok (bytes "1\n"), 1)
read_card (_ ∷ _ ∷ _ ∷ name ∷ []) (suc n) = (err failed, suc (suc n))
read_card _ n = (err not_exist, n)

abbrev read_bus : FilePath → ℕ → Result IoError (List DirEntry) × ℕ
read_bus (_ ∷ []) n = (ok (record { name = bytes "card02"; is_dir = true } ∷ []), n)
read_bus _ n = (ok (record { name = bytes "02.0008"; is_dir = true } ∷ []), n)

-- The world counts the reads of a queue's files.
abbrev card_os : Os
card_os = record {
  World = ℕ;
  read_file = read_card;
  write_file = λ p text n. (err failed, n);
  stat = λ p n. (ok tt, n);
  read_dir = read_bus;
  read_link = λ p n. (ok (zcrypt_driver ∷ []), n);
  remove = λ p n. (err failed, n);
  remove_all = λ p n. (err failed, n);
  mkdir_all = λ p n. (err failed, n);
  glob = λ p n. (ok [], n);
}

abbrev call : Call
call = record {
  apqn = bytes "02.0008";
  driver = zcrypt_driver;
  queue_path = bytes "/sys/devices/ap" ∷ bytes "card02" ∷ bytes "02.0008" ∷ [];
  card_type = cca;
}

abbrev so_far : List Call
so_far = call ∷ call ∷ []

tracker_is_free : IsFreeTracker new_mkvp_tracker
unfolding IsFreeTracker get
tracker_is_free apqn m e = ground arith

abbrev machine : Text
machine = bytes "m"

scan-IsPublished_example :
    let r = scan card_os machine new_mkvp_tracker 0 in
    ((cards : DevicesByCard) → r.0 ≡ ok cards → AreCards machine cards) × IsFreeTracker r.1
scan-IsPublished_example = scan-IsPublished machine card_os new_mkvp_tracker 0 tracker_is_free

abbrev card_devices : List Device
card_devices = device_of (bytes "m-02-0008") first ∷ device_of (bytes "m-02-0009") second ∷ []

abbrev cards : DevicesByCard
cards = (bytes "card02", card_devices) ∷ []

first-IsPublished : IsPublished machine (device_of (bytes "m-02-0008") first)
unfolding queue_of_device get text_beq bytes apid_name apqi_name device_name
first-IsPublished = (bytes "02", bytes "0008", refl, refl, refl, refl)

second-IsPublished : IsPublished machine (device_of (bytes "m-02-0009") second)
unfolding queue_of_device get text_beq bytes apid_name apqi_name device_name
second-IsPublished = (bytes "02", bytes "0009", refl, refl, refl, refl)

cards-AreCards : AreCards machine cards
cards-AreCards = (
  (
    (device_of (bytes "m-02-0008") first, device_of (bytes "m-02-0009") second ∷ [], refl),
    (first-IsPublished, (second-IsPublished, tt)),
  ),
  tt,
)
