-- ===== src/DeviceState/Guests/Ensure.antt =====
-- What `ensureMdevForClaim` makes of the mediated devices.
use k8s_cex_dra_driver.Prelude.{
  Text, List, Bool, true, false, ◌≡◌, ◌⊎◌, inl, inr, refl, ◌∙◌, sym, ap, ◌==◌, text_eq, contains,
  IsNodup, arith,
}
use k8s_cex_dra_driver.Prelude.Strings.{bytes}
use k8s_cex_dra_driver.Prelude.Exec.{Result, ok, err}
use k8s_cex_dra_driver.Os.{Os, IoError}
use k8s_cex_dra_driver.Mdev.{exists, Apqn, apqn_eq, MatrixError, read_matrix, attribute_path}
use k8s_cex_dra_driver.DeviceState.Env.{Env}
use k8s_cex_dra_driver.DeviceState.Allocation.{Collected, read_existing}
use k8s_cex_dra_driver.DeviceState.Build.{matrix_equals, mdev_matrix_equals, ensure_mdev}
use k8s_cex_dra_driver.DeviceState.Matrix.Complete.{matrix_equals_iff}
use k8s_cex_dra_driver.DeviceState.Quiet.{Quiet-map, exists-quiet, read_matrix-quiet}
use k8s_cex_dra_driver.DeviceState.Ensure.Outcome.{
  IsComplete, listed, compared, ensure_mdev-Outcome,
}
use k8s_cex_dra_driver.DeviceState.Guests.Rows.{exists_present, read_matrix_rows}
use k8s_cex_dra_driver.DeviceState.Guests.{Guest, Guests}
use k8s_cex_dra_driver.DeviceState.Guests.Apart.{build_mdev-Leaves, destroy-Leaves}
use k8s_cex_dra_driver.DeviceState.Guests.Build.{IsBuilt, IsSpanned, build_mdev_ok}

module _ (os : Os) (g : Guests os) (uid : Text) where
  open g use {guest}

  -- The comparison reads the matrix of the mdev.
  mdev_matrix_equals_guest :
      (allocated : List Apqn) (w : os.World) (b : Bool)
      → (mdev_matrix_equals os uid allocated w).0 ≡ ok b
      → matrix_equals (guest w uid).rows allocated ≡ b
  unfolding mdev_matrix_equals read_matrix
  mdev_matrix_equals_guest allocated w b h =
      go (os.read_file (attribute_path uid (bytes "matrix")) w).0 refl
    where
      go :
          (r : Result IoError Text)
          → (os.read_file (attribute_path uid (bytes "matrix")) w).0 ≡ r
          → matrix_equals (guest w uid).rows allocated ≡ b
      go (err e) f = absurd (ground arith)
      go (ok content) f = let read = read_matrix_rows os g uid w f in ground arith

  module _ (env : Env os)
      (visits : (w : os.World) (texts : List Text) (t : Text)
        → contains (env.range_texts w texts) t ≡ contains texts t)
      (mode : Text) (c : Collected) (w : os.World) where
    compared-guest : guest (compared os env uid c w) ≡ guest w
    unfolding mdev_matrix_equals
    compared-guest = ground (
      arith,
      exists-quiet os guest g.apart uid w,
      read_matrix-quiet os guest g.apart uid (listed os env uid c w),
    )

    -- An mdev that the comparison finds complete is there and lists exactly the queues of the claim.
    pub complete-IsBuilt : IsComplete os env uid c w → IsNodup c.allocated → IsBuilt os g uid c w
    complete-IsBuilt (there, equal) nodup =
        let v = listed os env uid c w in
        let before : guest v uid ≡ guest w uid =
          ap (λ (f : Text → Guest). f uid) (exists-quiet os guest g.apart uid w) in
        (
          sym (exists_present os g uid w) ∙ there,
          λ q.
              (matrix_equals_iff (guest w uid).rows c.allocated (g.rows_IsNodup w uid) nodup).0
                (sym (ap (λ (h : Guest). matrix_equals h.rows c.allocated) before)
                  ∙ mdev_matrix_equals_guest c.allocated v true equal)
                q,
        )

    -- When `ensureMdevForClaim` succeeds, the mdev of the claim is there, and its matrix lists exactly
    -- the queues of the claim, whether the mdev was there before or not.
    pub ensure_mdev_ok :
        IsSpanned c
        → IsNodup c.allocated
        → (ensure_mdev os env uid mode c w).0 ≡ ok tt
        → IsBuilt os g uid c (ensure_mdev os env uid mode c w).1
    ensure_mdev_ok s nodup done =
        elim (ensure_mdev-Outcome os env uid c w (λ v. tt {0})
          (Quiet-map os guest (λ f. tt) g.apart) (record { at = λ v. refl }) mode) [
            | inr (inr (e, failed, same)) ↦ absurd (ground arith)
            | inr (inl (v, same, built)) ↦
                rw built (build_mdev_ok os g uid env visits mode c v s (rw built at done))
            | inl (complete, e, same) ↦
                let (present, rows) = complete-IsBuilt complete nodup in
                let stable : guest (ensure_mdev os env uid mode c w).1 uid ≡ guest w uid =
                  ap (λ r. guest r.1 uid) e ∙ ap (λ (f : Text → Guest). f uid) compared-guest in
                (
                  ap (λ (h : Guest). h.present) stable ∙ present,
                  λ q. ap (λ (h : Guest). contains h.rows q) stable ∙ rows q,
                )
          ]

    -- A claim whose mdev is built is prepared again by the two reads alone: they find the mdev complete,
    -- or the matrix cannot be read.
    pub ensure_mdev_again :
        IsNodup c.allocated
        → IsBuilt os g uid c w
        → let r = ensure_mdev os env uid mode c w in
          (r ≡ (ok tt, compared os env uid c w))
          ⊎ ((e : MatrixError) × (r ≡ (err (read_existing e), compared os env uid c w)))
    unfolding ensure_mdev
    ensure_mdev_again nodup (present, rows) =
        go (mdev_matrix_equals os uid c.allocated (listed os env uid c w)).0 refl
      where
        there : (exists os uid w).0 ≡ true
        there = exists_present os g uid w ∙ present

        before : guest (listed os env uid c w) uid ≡ guest w uid
        before = ap (λ (f : Text → Guest). f uid) (exists-quiet os guest g.apart uid w)

        equal : matrix_equals (guest (listed os env uid c w) uid).rows c.allocated ≡ true
        equal =
            ap (λ (h : Guest). matrix_equals h.rows c.allocated) before
            ∙ (matrix_equals_iff (guest w uid).rows c.allocated (g.rows_IsNodup w uid) nodup).1 rows

        go :
            (r : Result MatrixError Bool)
            → (mdev_matrix_equals os uid c.allocated (listed os env uid c w)).0 ≡ r
            → (ensure_mdev os env uid mode c w ≡ (ok tt, compared os env uid c w))
              ⊎ ((e : MatrixError) × (ensure_mdev os env uid mode c w
                    ≡ (err (read_existing e), compared os env uid c w)))
        go (err e) f = inr (e, ground (arith, there))
        go (ok b) f =
            let same = mdev_matrix_equals_guest c.allocated (listed os env uid c w) b f in
            let yes : b ≡ true = sym same ∙ equal in inl (ground (arith, there, yes))

    -- The mdev of another claim stays as it was.
    pub ensure_mdev_other :
        (other : Text)
        → (uid == other) ≡ false
        → guest (ensure_mdev os env uid mode c w).1 other ≡ guest w other
    ensure_mdev_other other apart =
        elim (ensure_mdev-Outcome os env uid c w (λ v. guest v other)
          (Quiet-map os guest (λ f. f other) g.apart) (destroy-Leaves os g uid other apart) mode) [
            | inl (complete, e, same) ↦ rw e same
            | inr (inr (e, failed, same)) ↦ same
            | inr (inl (v, same, built)) ↦
                rw built ((build_mdev-Leaves os g uid other apart env mode c).at v ∙ same)
          ]
