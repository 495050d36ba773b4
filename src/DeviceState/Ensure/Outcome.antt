-- ===== src/DeviceState/Ensure/Outcome.antt =====
-- The ways through `ensureMdevForClaim`, with a part of the node that neither the removal of the mdev
-- nor the files of the plugin touch.
use k8s_cex_dra_driver.Prelude.{
  Text, true, false, ◌≡◌, ◌⊎◌, inl, inr, ◌∙◌, Bool, Bool-cases, arith, refl,
}
use k8s_cex_dra_driver.Prelude.Exec.{Result, ok, err}
use k8s_cex_dra_driver.Os.{Os}
use k8s_cex_dra_driver.Mdev
use k8s_cex_dra_driver.Mdev.{MatrixError, MdevError, exists, read_matrix}
use k8s_cex_dra_driver.DeviceState.Env.{Env}
use k8s_cex_dra_driver.DeviceState.Quiet.{Quiet, Leaves, exists-quiet, read_matrix-quiet}
use k8s_cex_dra_driver.DeviceState.Allocation.{
  Collected, PrepareError, read_existing, destroy_partial,
}
use k8s_cex_dra_driver.DeviceState.Build.{mdev_matrix_equals, build_mdev, ensure_mdev}

module _ (os : Os) (env : Env os) (uid : Text) (c : Collected) (w : os.World) where
  -- The worlds after the test for the mdev, and after its matrix was compared.
  abbrev pub listed : os.World
  listed = (exists os uid w).1

  abbrev pub compared : os.World
  compared = (mdev_matrix_equals os uid c.allocated listed).1

  -- The mdev is there and holds the queues of the claim.
  abbrev pub IsComplete : Type 0
  IsComplete =
      ((exists os uid w).0 ≡ true) × ((mdev_matrix_equals os uid c.allocated listed).0 ≡ ok true)

  module _ {A : Type 0} (look : os.World → A) (quiet : Quiet os look) where
    listed-look : look listed ≡ look w
    listed-look = exists-quiet os look quiet uid w

    pub compared-look : look compared ≡ look w
    unfolding mdev_matrix_equals
    compared-look = ground (arith, read_matrix-quiet os look quiet uid listed, listed-look)

  module _ {A : Type 0} (look : os.World → A) (quiet : Quiet os look)
      (destroys : Leaves look (Mdev.destroy os uid)) where
    -- `ensureMdevForClaim` finds a complete mdev, or builds one, or fails before that.
    abbrev pub Outcome : Text → Type 0
    Outcome mode =
        let r = ensure_mdev os env uid mode c w in
        (IsComplete × (r ≡ (ok tt, compared)) × (look compared ≡ look w))
        ⊎ ((v : os.World) × (look v ≡ look w) × (r ≡ build_mdev os env uid mode c v))
        ⊎ ((e : PrepareError) × (r.0 ≡ err e) × (look r.1 ≡ look w))

    pub ensure_mdev-Outcome : (mode : Text) → Outcome mode
    unfolding ensure_mdev
    ensure_mdev-Outcome mode = elim (Bool-cases (exists os uid w).0) [
      | inr absent ↦ inr (inl (listed, (listed-look look quiet), ground arith))
      | inl there ↦
          go there (mdev_matrix_equals os uid c.allocated listed).0 refl
            (Mdev.destroy os uid compared).0 refl
    ]
      where
        destroyed-look : look (Mdev.destroy os uid compared).1 ≡ look w
        destroyed-look = destroys.at compared ∙ (compared-look look quiet)

        go :
            (exists os uid w).0 ≡ true
            → (r : Result MatrixError Bool) → (mdev_matrix_equals os uid c.allocated listed).0 ≡ r
            → (d : Result MdevError (Unit {0})) → (Mdev.destroy os uid compared).0 ≡ d
            → Outcome mode
        go there (err e) re d de =
            inr (inr (read_existing e, ground arith, ground (arith, (compared-look look quiet))))
        go there (ok true) re d de = inl ((there, re), ground arith, (compared-look look quiet))
        go there (ok false) re (err e) de =
            inr (inr (destroy_partial e, ground arith, ground (arith, destroyed-look)))
        go there (ok false) re (ok t) de =
            inr (inl ((Mdev.destroy os uid compared).1, destroyed-look, ground arith))
