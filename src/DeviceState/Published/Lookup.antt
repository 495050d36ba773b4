-- ===== src/DeviceState/Published/Lookup.antt =====
-- What `Prepare` finds under the name of a device.
use k8s_cex_dra_driver.Prelude.{
  Text, List, [], ◌∷◌, some, ◌≡◌, ◌==◌, text_eq, ==→eq, All, Bool-cases, inl, inr, arith, subst,
}
use k8s_cex_dra_driver.Prelude.Dict.{Dict, get, put, get-put}
use k8s_cex_dra_driver.Resource.{Device}
use k8s_cex_dra_driver.ApScanner.{DevicesByCard}
use k8s_cex_dra_driver.DeviceState.{put_devices, allocatable_of}
use k8s_cex_dra_driver.DeviceState.Allocation.{}
use k8s_cex_dra_driver.DeviceState.Published.{IsPublished}
use k8s_cex_dra_driver.DeviceState.Published.Scan.{AreCards}

module _ (machine_id : Text) where
  -- What is found under a name has this name, and stands for a queue.
  abbrev pub IsFound : Dict Text Device → Type 0
  IsFound allocatable =
      (name : Text) (d : Device)
      → get name allocatable ≡ some d
      → (d.name ≡ name) × IsPublished machine_id d

  put-IsFound :
      (d : Device) (allocatable : Dict Text Device)
      → IsPublished machine_id d
      → IsFound allocatable
      → IsFound (put d.name d allocatable)
  put-IsFound d allocatable p h name x e = elim (Bool-cases (d.name == name)) [
    | inl same ↦
        let here : some d ≡ some x = rw (get-put, same) at e in
        let this : d ≡ x = ground arith in
        subst (λ y. (y.name ≡ name) × IsPublished machine_id y) this (==→eq same, p)
    | inr other ↦ h name x (rw (get-put, other) at e)
  ]

  put_devices-IsFound :
      (devices : List Device) (allocatable : Dict Text Device)
      → All (IsPublished machine_id) devices
      → IsFound allocatable
      → IsFound (put_devices devices allocatable)
  unfolding put_devices
  put_devices-IsFound [] allocatable p h = h
  put_devices-IsFound (d ∷ devices) allocatable (p, ps) h =
      put_devices-IsFound devices (put d.name d allocatable) ps (put-IsFound d allocatable p h)

  pub allocatable_of-IsFound :
      (cards : DevicesByCard) (allocatable : Dict Text Device)
      → AreCards machine_id cards
      → IsFound allocatable
      → IsFound (allocatable_of cards allocatable)
  unfolding allocatable_of
  allocatable_of-IsFound [] allocatable p h = h
  allocatable_of-IsFound ((name, devices) ∷ cards) allocatable ((_, p), ps) h =
      allocatable_of-IsFound cards (put_devices devices allocatable) ps
        (put_devices-IsFound devices allocatable p h)
