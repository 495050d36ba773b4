-- ===== src/DeviceState/Published/Pools.antt =====
-- The pools that are published, against the devices that `Prepare` looks up.
use k8s_cex_dra_driver.Prelude.{
  Text, List, [], ◌∷◌, ◌++◌, Bool, true, false, ◌||◌, Option, none, some, ◌≡◌, refl, ◌==◌, text_eq,
  text_beq, text_beq_iff, nat_beq_iff, contains, IsNodup, map, Bool-cases, inl, inr, arith,
}
use k8s_cex_dra_driver.Prelude.Exec.{Result, ok, err}
use k8s_cex_dra_driver.Prelude.Dict.{Dict, put}
use k8s_cex_dra_driver.Os.{Os, DirEntry, IoError, not_exist, failed}
use k8s_cex_dra_driver.Resource.{Device, DriverResources, Pool}
use k8s_cex_dra_driver.Binding.{ap_devices_path}
use k8s_cex_dra_driver.ApScanner.Tracker.{MkvpTracker}
use k8s_cex_dra_driver.ApScanner.{
  DevicesByCard, ScanError, scan_card, add_card, scan_cards, scan_listing, finish, scan,
}
use k8s_cex_dra_driver.DeviceState.{pool_name, pools_of}
use k8s_cex_dra_driver.DeviceState.Snapshot.{has_device, scanned}

abbrev pub keys : {V : Type 0} → Dict Text V → List Text
keys d = map (λ (k, _). k) d

contains-put :
    {V : Type 0} (k : Text) (v : V) (d : Dict Text V) (j : Text)
    → contains (keys (put k v d)) j ≡ (contains (keys d) j || k == j)
unfolding contains put
contains-put k v [] j = ground arith
contains-put k v ((i, x) ∷ d) j = ground (arith, contains-put k v d j, text_beq_iff i k)

put-IsNodup :
    {V : Type 0} (k : Text) (v : V) (d : Dict Text V)
    → IsNodup (keys d)
    → IsNodup (keys (put k v d))
unfolding contains put
put-IsNodup k v [] u = (refl, tt)
put-IsNodup k v ((j, x) ∷ d) (fresh, u) = elim (Bool-cases (j == k)) [
  | inl same ↦ let e : j ≡ k = (text_beq_iff j k).0 same in rw same (rw (← e) (fresh, u))
  | inr other ↦ rw other (
    ground (arith, contains-put k v d j, text_beq_iff k j, text_beq_iff j k),
    put-IsNodup k v d u,
  )
]

-- A scan lists each card once.
module _ (os : Os) (machine_id : Text) where
  abbrev HasDistinctCards : Result ScanError DevicesByCard → Type 0
  HasDistinctCards (err e) = Unit
  HasDistinctCards (ok cards) = IsNodup (keys cards)

  add_card-IsNodup :
      (name : Text) (o : Option (List Device)) (cards : DevicesByCard)
      → IsNodup (keys cards)
      → IsNodup (keys (add_card name o cards))
  add_card-IsNodup name none cards u = u
  add_card-IsNodup name (some []) cards u = u
  add_card-IsNodup name (some (d ∷ devices)) cards u = put-IsNodup name (d ∷ devices) cards u

  scan_cards-HasDistinctCards :
      (entries : List DirEntry) (cards : DevicesByCard) (t : MkvpTracker) (w : os.World)
      → IsNodup (keys cards)
      → HasDistinctCards (scan_cards os machine_id entries cards t w).0
  unfolding scan_cards
  scan_cards-HasDistinctCards [] cards t w u = u
  scan_cards-HasDistinctCards (entry ∷ entries) cards t w u =
      go (scan_cards-HasDistinctCards entries) (scan_card os entry machine_id t w).0 refl
    where
      go :
          ((cards : DevicesByCard) (t : MkvpTracker) (w : os.World)
            → IsNodup (keys cards)
            → HasDistinctCards (scan_cards os machine_id entries cards t w).0)
          → (r : Result ScanError (Option (List Device)))
          → (scan_card os entry machine_id t w).0 ≡ r
          → HasDistinctCards (scan_cards os machine_id (entry ∷ entries) cards t w).0
      go ih (err e) f = rw (scan_cards, f) tt
      go ih (ok devices) f =
          rw (scan_cards, f) (ih _ _ _ (add_card-IsNodup entry.name devices cards u))

  scan_listing-HasDistinctCards :
      (r : Result IoError (List DirEntry)) (t : MkvpTracker) (w : os.World)
      → HasDistinctCards (finish os (scan_listing os machine_id r t w)).0
  scan_listing-HasDistinctCards (err not_exist) t w = tt
  scan_listing-HasDistinctCards (err failed) t w = tt
  scan_listing-HasDistinctCards (ok entries) t w =
      done (scan_cards os machine_id entries [] t w) (scan_cards-HasDistinctCards entries [] t w tt)
    where
      done :
          (r : Result ScanError DevicesByCard × MkvpTracker × os.World)
          → HasDistinctCards r.0
          → HasDistinctCards (finish os r).0
      done (err e, t, w) h = tt
      done (ok cards, t, w) h = h

  pub scan-IsNodup :
      (t : MkvpTracker) (w : os.World) (cards : DevicesByCard)
      → (scan os machine_id t w).0 ≡ ok cards
      → IsNodup (keys cards)
  unfolding scan
  scan-IsNodup t w cards e =
      let (r, w') = os.read_dir ap_devices_path w in
      take_ok _ (scan_listing-HasDistinctCards r t w') e
    where
      take_ok :
          (r : Result ScanError DevicesByCard)
          → HasDistinctCards r
          → r ≡ ok cards
          → IsNodup (keys cards)
      take_ok (err e) h f = ground arith
      take_ok (ok c) h f = let p : c ≡ cards = ground arith in rw (← p) h

-- Some slice of the pool, or of a pool, has a device of the name.
unfoldable pub in_slices : Pool → Text → Bool
in_slices [] name = false
in_slices (slice ∷ slices) name = has_device slice name || in_slices slices name

unfoldable pub in_pools : DriverResources → Text → Bool
in_pools [] name = false
in_pools ((_, slices) ∷ pools) name = in_slices slices name || in_pools pools name

put-in_pools :
    (k : Text) (slices : Pool) (pools : DriverResources) (name : Text)
    → contains (keys pools) k ≡ false
    → in_pools (put k slices pools) name ≡ (in_slices slices name || in_pools pools name)
unfolding contains put in_pools
put-in_pools k slices [] name h = refl
put-in_pools k slices ((j, old) ∷ pools) name h = ground (arith, put-in_pools k slices pools name)

module _ (node_name : Text) where
  pool_name-beq : (a b : Text) → (pool_name node_name a == pool_name node_name b) ≡ (a == b)
  unfolding text_beq
  pool_name-beq a b = prefixed node_name
    where
      prefixed : (s : Text) → (s ++ (b'-' ∷ a) == s ++ (b'-' ∷ b)) ≡ (a == b)
      prefixed [] = ground arith
      prefixed (c ∷ s) = ground (arith, prefixed s, nat_beq_iff c c)

  -- No card of the rest has a pool yet.
  abbrev AreNew : DevicesByCard → DriverResources → Type 0
  AreNew cards pools =
      (card : Text)
      → contains (keys cards) card ≡ true
      → contains (keys pools) (pool_name node_name card) ≡ false

  pools_of-in_pools :
      (cards : DevicesByCard) (pools : DriverResources) (name : Text)
      → IsNodup (keys cards)
      → AreNew cards pools
      → in_pools (pools_of node_name cards pools) name ≡ (scanned cards name || in_pools pools name)
  unfolding contains pools_of scanned in_slices
  pools_of-in_pools [] pools name u new = refl
  pools_of-in_pools ((card, devices) ∷ cards) pools name (fresh, u) new =
      let pools' = put (pool_name node_name card) (devices ∷ []) pools in
      let still : AreNew cards pools' = λ other m. ground (
        arith,
        contains-put (pool_name node_name card) (devices ∷ []) pools (pool_name node_name other),
        new other,
        pool_name-beq card other,
        text_beq_iff card other,
      ) in
      ground (
        arith,
        pools_of-in_pools cards pools' name u still,
        put-in_pools (pool_name node_name card) (devices ∷ []) pools name
            (new card (ground (arith, text_beq_iff card card))),
      )

  -- The pools of a scan hold the devices that were scanned, and no others.
  pub pools_of-scanned :
      (cards : DevicesByCard) (name : Text)
      → IsNodup (keys cards)
      → in_pools (pools_of node_name cards []) name ≡ scanned cards name
  unfolding in_pools contains
  pools_of-scanned cards name u = ground (arith, pools_of-in_pools cards [] name u (λ card m. refl))
