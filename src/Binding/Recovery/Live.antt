-- ===== src/Binding/Recovery/Live.antt =====
-- What `liveAPQNs` finds, and the drain as a whole.
use k8s_cex_dra_driver.Prelude.{
  Text, List, [], ◌∷◌, ◌++◌, Bool, true, false, Option, none, some, ◌≡◌, refl, subst, ◌==◌, text_eq,
  All, All-snoc, All-insert, contains, insert, arith, ==→eq, Bool-cases, inl, inr,
}
use k8s_cex_dra_driver.Prelude.Exec.{Result, ok, err}
use k8s_cex_dra_driver.Prelude.Strings.{trim_space, cut, split, bytes}
use k8s_cex_dra_driver.Prelude.Strings.Laws.{cut-eq_some}
use k8s_cex_dra_driver.Os.{Os, FilePath, DirEntry, IoError, not_exist, failed}
use k8s_cex_dra_driver.Mdev.{
  Apqn, apqn_eq, MatrixError, parse_lines, parse_matrix, read_matrix, vfio_ap_matrix_path,
  attribute_path,
}
use k8s_cex_dra_driver.Binding.{queue_id}
use k8s_cex_dra_driver.Binding.Kernel.{Kernel, SameQueue, SameQueue-trans}
use k8s_cex_dra_driver.Binding.Mdevs.{read_matrix-Same}
use k8s_cex_dra_driver.Binding.Recovery.{
  insert_all, claimed_rows, live_of_entries, live_of_listing, live_apqns, drain_orphaned_vfio_ap,
  ap_queue_override_glob,
}
use k8s_cex_dra_driver.Binding.Recovery.Drain.{HasNoDot, drain_paths_spares}

abbrev Dotless : Apqn → Type 0
Dotless r = HasNoDot r.apid

parse_lines-Dotless :
    (lines : List Text) (out qs : List Apqn)
    → All Dotless out
    → parse_lines lines out ≡ ok qs
    → All Dotless qs
unfolding parse_lines
parse_lines-Dotless [] out qs h e = let p : out ≡ qs = cc in subst (All Dotless) p h
parse_lines-Dotless (raw ∷ lines) out qs h e =
    step (parse_lines-Dotless lines) (trim_space raw == []) refl (cut b'.' (trim_space raw)) refl
  where
    step :
        ((out' qs : List Apqn) → All Dotless out' → parse_lines lines out' ≡ ok qs → All Dotless qs)
        → (b : Bool) → (trim_space raw == []) ≡ b
        → (r : Option (Text × Text)) → cut b'.' (trim_space raw) ≡ r
        → All Dotless qs
    step ih true blank r found = ih out qs h (ground arith)
    step ih false line none found = ground arith
    step ih false line (some (a, b)) found =
        ih (out ++ (record { apid = a; apqi = b } ∷ [])) qs
          (All-snoc Dotless out (record { apid = a; apqi = b }) h
            (cut-eq_some b'.' (trim_space raw) a b found).1)
          (ground arith)

All-insert_all :
    (rows out : List Apqn) → All Dotless rows → All Dotless out → All Dotless (insert_all rows out)
unfolding insert_all
All-insert_all [] out hr h = h
All-insert_all (row ∷ rows) out (d, hr) h =
    All-insert_all rows (insert row out) hr (All-insert Dotless row out h d)

Dotless-contains :
    (out : List Apqn) (q : Apqn) → All Dotless out → contains out q ≡ true → HasNoDot q.apid
unfolding contains
Dotless-contains [] q h c = ground arith
Dotless-contains (x ∷ out) q (d, h) c = elim (Bool-cases (x == q)) [
  | inl same ↦ subst Dotless (==→eq same) d
  | inr other ↦ Dotless-contains out q h (rw other at c)
]

read_matrix-Dotless :
    (os : Os) (name : Text) (w : os.World) (rows : List Apqn)
    → (read_matrix os name w).0 ≡ ok rows
    → All Dotless rows
unfolding read_matrix parse_matrix
read_matrix-Dotless os name w rows h =
    step (os.read_file (attribute_path name (bytes "matrix")) w).0 refl
  where
    step :
        (r : Result IoError Text)
        → (os.read_file (attribute_path name (bytes "matrix")) w).0 ≡ r
        → All Dotless rows
    step (ok content) e = parse_lines-Dotless (split b'\n' content) [] rows tt (ground arith)
    step (err x) e = ground arith

claimed_rows-Dotless :
    (os : Os) (r : Result MatrixError (List Apqn)) (out : List Apqn)
    → ((rows : List Apqn) → r ≡ ok rows → All Dotless rows)
    → All Dotless out
    → All Dotless (claimed_rows os r out)
claimed_rows-Dotless os (ok rows) out d h = All-insert_all rows out (d rows refl) h
claimed_rows-Dotless os (err e) out d h = h

module _ (os : Os) where
  live_of_entries-Dotless :
      (entries : List DirEntry) (out : List Apqn) (w : os.World)
      → All Dotless out
      → All Dotless (live_of_entries os entries out w).0
  unfolding live_of_entries
  live_of_entries-Dotless [] out w h = h
  live_of_entries-Dotless (e ∷ entries) out w h = elim (Bool-cases e.is_dir) [
    | inl dir ↦ rw dir (
        live_of_entries-Dotless entries _ _ (
          claimed_rows-Dotless os (read_matrix os e.name w).0 out (read_matrix-Dotless os e.name w)
            h))
    | inr other ↦ rw other (live_of_entries-Dotless entries out w h)
  ]

  live_of_listing-Dotless :
      (r : Result IoError (List DirEntry)) (w : os.World) (live : List Apqn)
      → (live_of_listing os r w).0 ≡ ok live
      → All Dotless live
  live_of_listing-Dotless (ok entries) w live h =
      let p : (live_of_entries os entries [] w).0 ≡ live = cc in
      subst (All Dotless) p (live_of_entries-Dotless entries [] w tt)
  live_of_listing-Dotless (err not_exist) w live h =
      let p : [] ≡ live = cc in subst (All Dotless) p tt
  live_of_listing-Dotless (err failed) w live h = cc

module _ (os : Os) (k : Kernel os) where
  open k use {override, driver, read_dir_same, glob_same}

  live_of_entries-same :
      (id : Text) (entries : List DirEntry) (out : List Apqn) (w : os.World)
      → SameQueue os k id w (live_of_entries os entries out w).1
  unfolding live_of_entries
  live_of_entries-same id [] out w = (refl, refl)
  live_of_entries-same id (e ∷ entries) out w = elim (Bool-cases e.is_dir) [
    | inl dir ↦ rw dir (
        SameQueue-trans os k (read_matrix-Same os k id e.name w)
          (live_of_entries-same id entries _ (read_matrix os e.name w).1))
    | inr other ↦ rw other (live_of_entries-same id entries out w)
  ]

  live_of_listing-same :
      (id : Text) (r : Result IoError (List DirEntry)) (w : os.World)
      → SameQueue os k id w (live_of_listing os r w).1
  live_of_listing-same id (ok entries) w = live_of_entries-same id entries [] w
  live_of_listing-same id (err not_exist) w = (refl, refl)
  live_of_listing-same id (err failed) w = (refl, refl)

  pub live_apqns-same : (id : Text) (w : os.World) → SameQueue os k id w (live_apqns os w).1
  unfolding live_apqns
  live_apqns-same id w =
      let r = os.read_dir vfio_ap_matrix_path w in
      SameQueue-trans os k (read_dir_same vfio_ap_matrix_path w id)
        (live_of_listing-same id r.0 r.1)

  -- The drain leaves the override and the driver of every queue that a live mdev claims alone,
  -- whatever fails on the way. A queue counts as claimed if the set that `live_apqns` returns at the
  -- start of the drain holds it.
  pub drain_spares_live :
      (verbose : Bool) (w : os.World) (live : List Apqn) (q : Apqn)
      → (live_apqns os w).0 ≡ ok live
      → contains live q ≡ true
      → SameQueue os k (queue_id q.apid q.apqi) w (drain_orphaned_vfio_ap os verbose w).1
  unfolding drain_orphaned_vfio_ap
  drain_spares_live verbose w live q found claimed =
      go (os.glob ap_queue_override_glob listed).0 refl
    where
      listed : os.World
      listed = (live_apqns os w).1

      globbed : os.World
      globbed = (os.glob ap_queue_override_glob listed).1

      dotless : HasNoDot q.apid
      dotless =
          Dotless-contains live q (live_of_listing-Dotless os _ _ live (unfold live_apqns in found))
            claimed

      go :
          (r : Result IoError (List FilePath))
          → (os.glob ap_queue_override_glob listed).0 ≡ r
          → SameQueue os k (queue_id q.apid q.apqi) w (drain_orphaned_vfio_ap os verbose w).1
      go (err e) eq = ground (
        arith,
        live_apqns-same (queue_id q.apid q.apqi) w,
        glob_same ap_queue_override_glob listed (queue_id q.apid q.apqi),
      )
      go (ok ps) eq = ground (
        arith,
        live_apqns-same (queue_id q.apid q.apqi) w,
        glob_same ap_queue_override_glob listed (queue_id q.apid q.apqi),
        drain_paths_spares live q dotless claimed os k verbose ps globbed,
      )
