-- ===== src/DeviceState/Published/Scan.antt =====
-- A whole scan, and the lookup of its devices by `Prepare`.
use k8s_cex_dra_driver.Prelude.{
  Text, List, [], ◌∷◌, Option, none, some, ◌≡◌, refl, ◌==◌, text_eq, All, Bool-cases, inl, inr,
  arith, subst,
}
use k8s_cex_dra_driver.Prelude.Exec.{Result, ok, err}
use k8s_cex_dra_driver.Prelude.Dict.{put}
use k8s_cex_dra_driver.Os.{Os, DirEntry, IoError, not_exist, failed}
use k8s_cex_dra_driver.Resource.{Device}
use k8s_cex_dra_driver.Binding.{ap_devices_path}
use k8s_cex_dra_driver.ApScanner.Tracker.{MkvpTracker}
use k8s_cex_dra_driver.ApScanner.Tracker.Keys.{IsFreeTracker}
use k8s_cex_dra_driver.ApScanner.{
  DevicesByCard, ScanError, scan_card, scan_cards, scan, scan_listing, finish, add_card,
}
use k8s_cex_dra_driver.DeviceState.Allocation.{}
use k8s_cex_dra_driver.DeviceState.Published.{
  IsPublished, CardPublished, AllPublished, scan_card-CardPublished,
}

module _ (machine_id : Text) where
  -- A card of a scan has at least one device, and all its devices are as `IsPublished` says.
  abbrev pub IsCard : List Device → Type 0
  IsCard devices =
      ((d : Device) × (rest : List Device) × (devices ≡ d ∷ rest))
      × All (IsPublished machine_id) devices

  abbrev pub AreCards : DevicesByCard → Type 0
  AreCards = All (λ (_, devices). IsCard devices)

  put-AreCards :
      (name : Text) (devices : List Device) (cards : DevicesByCard)
      → IsCard devices
      → AreCards cards
      → AreCards (put name devices cards)
  unfolding put
  put-AreCards name devices [] c h = (c, tt)
  put-AreCards name devices ((j, old) ∷ cards) c (x, h) = elim (Bool-cases (j == name)) [
    | inl same ↦ rw same (c, h)
    | inr other ↦ rw other (x, put-AreCards name devices cards c h)
  ]

  add_card-AreCards :
      (name : Text) (o : Option (List Device)) (cards : DevicesByCard)
      → AllPublished machine_id o
      → AreCards cards
      → AreCards (add_card name o cards)
  add_card-AreCards name none cards p h = h
  add_card-AreCards name (some []) cards p h = h
  add_card-AreCards name (some (d ∷ devices)) cards p h =
      put-AreCards name (d ∷ devices) cards ((d, devices, refl), p) h

  abbrev ScanPublished : Result ScanError DevicesByCard → Type 0
  ScanPublished (err e) = Unit
  ScanPublished (ok cards) = AreCards cards

  module _ (os : Os) where
    scan_cards-ScanPublished :
        (entries : List DirEntry) (cards : DevicesByCard) (t : MkvpTracker) (w : os.World)
        → AreCards cards
        → IsFreeTracker t
        → let r = scan_cards os machine_id entries cards t w in
          ScanPublished r.0 × IsFreeTracker r.1
    unfolding scan_cards
    scan_cards-ScanPublished [] cards t w p h = (p, h)
    scan_cards-ScanPublished (entry ∷ entries) cards t w p h =
        let (a, b) = scan_card-CardPublished os machine_id entry t w h in
        go (λ cards' t' w' p' h'. scan_cards-ScanPublished entries cards' t' w' p' h')
          (scan_card os entry machine_id t w).0 refl a b
      where
        go :
            ((cards' : DevicesByCard) (t' : MkvpTracker) (w' : os.World)
              → AreCards cards'
              → IsFreeTracker t'
              → let r = scan_cards os machine_id entries cards' t' w' in
                ScanPublished r.0 × IsFreeTracker r.1)
            → (c : Result ScanError (Option (List Device)))
            → (scan_card os entry machine_id t w).0 ≡ c
            → CardPublished machine_id c
            → IsFreeTracker (scan_card os entry machine_id t w).1
            → let r = scan_cards os machine_id (entry ∷ entries) cards t w in
              ScanPublished r.0 × IsFreeTracker r.1
        go ih (err e) f a b = rw (scan_cards, f) (tt, b)
        go ih (ok devices) f a b =
            rw (scan_cards, f) (ih _ _ _ (add_card-AreCards entry.name devices cards a p) b)

    scan_listing-ScanPublished :
        (r : Result IoError (List DirEntry)) (t : MkvpTracker) (w : os.World)
        → IsFreeTracker t
        → let s = finish os (scan_listing os machine_id r t w) in
          ScanPublished s.0 × IsFreeTracker s.1
    scan_listing-ScanPublished (err not_exist) t w h = (tt, unfold IsFreeTracker in h)
    scan_listing-ScanPublished (err failed) t w h = (tt, h)
    scan_listing-ScanPublished (ok entries) t w h =
        let r = scan_cards os machine_id entries [] t w in
        let (a, b) = scan_cards-ScanPublished entries [] t w tt h in done r.0 r.1 r.2 a b
      where
        done :
            (r : Result ScanError DevicesByCard) (t : MkvpTracker) (w : os.World)
            → ScanPublished r
            → IsFreeTracker t
            → let s = finish os (r, t, w) in ScanPublished s.0 × IsFreeTracker s.1
        done (err e) t w a b = (a, b)
        done (ok cards) t w a b = (a, unfold IsFreeTracker in b)

    -- A scan publishes a card only with a device, and each of its devices carries, as `Prepare` reads
    -- them, the two numbers of a queue, of the widths of the AP bus, under the name made of the machine
    -- and the queue. The tracker goes on to satisfy what the scan needed of it, which the tracker of a
    -- new scanner satisfies.
    pub scan-IsPublished :
        (t : MkvpTracker) (w : os.World)
        → IsFreeTracker t
        → let r = scan os machine_id t w in
          ((cards : DevicesByCard) → r.0 ≡ ok cards → AreCards cards) × IsFreeTracker r.1
    unfolding scan
    scan-IsPublished t w h =
        let (r, w') = os.read_dir ap_devices_path w in
        let (a, b) = scan_listing-ScanPublished r t w' h in (λ cards e. take_ok _ cards e a, b)
      where
        take_ok :
            (r : Result ScanError DevicesByCard) (cards : DevicesByCard)
            → r ≡ ok cards
            → ScanPublished r
            → AreCards cards
        take_ok (err e) cards f a = ground arith
        take_ok (ok c) cards f a = let p : c ≡ cards = ground arith in subst AreCards p a
