-- ===== src/ApScanner/Tracker/Keys.antt =====
-- The names under which the tracker keeps and publishes master key verification patterns.
use k8s_cex_dra_driver.Prelude.{
  ℕ, ◌+◌, leb, Text, Bool, true, false, ◌||◌, Option, none, some, ◌≡◌, inl, inr, refl, ◌==◌,
  text_eq, Bool-cases, arith, subst,
}
use k8s_cex_dra_driver.Prelude.Exec.{Result, ok, err}
use k8s_cex_dra_driver.Prelude.Dict.{get-put}
use k8s_cex_dra_driver.Os.{Os, FilePath}
use k8s_cex_dra_driver.Sysfs.Mkvp.{Mkvps, MkvpError, cca, ep11, parse_mkvps}
use k8s_cex_dra_driver.ApScanner.Queue.{}
use k8s_cex_dra_driver.ApScanner.Tracker.{
  QueueState, MkvpTracker, on_read, on_absent, evaluate, evaluate_state, mkvps_present,
  read_zcrypt_mkvps, state_of, set_state, mkvp_retry_budget,
}
use k8s_cex_dra_driver.Sysfs.Mkvp.Names.{AreFree, unknown_mkvps-AreFree, parse_mkvps-AreFree}

-- The patterns in a queue's cache.
abbrev IsFreeState : QueueState → Type 0
IsFreeState state = (m : Mkvps) → state.cache ≡ some m → AreFree m

-- The tracker invariant: no cached pattern has the name of another attribute.
unfoldable pub IsFreeTracker : MkvpTracker → Type 0
IsFreeTracker t = (apqn : Text) (m : Mkvps) → (state_of t apqn).cache ≡ some m → AreFree m

on_read-AreFree :
    (card_type : Text) (r : Result MkvpError Mkvps) (state : QueueState)
    → ((m : Mkvps) → r ≡ ok m → AreFree m)
    → IsFreeState state
    → AreFree (on_read card_type r state).0.0 × IsFreeState (on_read card_type r state).1
unfolding on_read
on_read-AreFree card_type (ok m) state hr h =
    (hr m refl, λ m' e. let p : m ≡ m' = ground arith in subst AreFree p (hr m refl))
on_read-AreFree card_type (err x) state hr h = failed_read state.cache state.fail_count h
  where
    failed_read :
        (o : Option Mkvps) (n : ℕ)
        → ((m : Mkvps) → o ≡ some m → AreFree m)
        → let r = on_read card_type (err x) (record { cache = o; fail_count = n }) in
          AreFree r.0.0 × IsFreeState r.1
    failed_read none n h = (unknown_mkvps-AreFree card_type, λ m e. h m e)
    failed_read (some m) n h = elim (Bool-cases (leb (n + 1) mkvp_retry_budget)) [
      | inl within ↦ rw within (h m refl, λ m' e. h m' e)
      | inr beyond ↦ rw beyond (unknown_mkvps-AreFree card_type, λ m' e. ground arith)
    ]

on_absent-AreFree :
    (card_type : Text) (state : QueueState)
    → IsFreeState state
    → AreFree (on_absent card_type state).0
unfolding on_absent
on_absent-AreFree card_type state h = go state.cache h
  where
    go :
        (o : Option Mkvps)
        → ((m : Mkvps) → o ≡ some m → AreFree m)
        → AreFree (on_absent card_type (record { cache = o; fail_count = 0 })).0
    go none h = unknown_mkvps-AreFree card_type
    go (some m) h = h m refl

module _ (os : Os) (driver : Text) (queue_path : FilePath) (card_type : Text) where
  evaluate_state-AreFree :
      (present : Bool) (state : QueueState) (w : os.World)
      → IsFreeState state
      → let r = evaluate_state os present queue_path card_type state w in
        AreFree r.0.0 × IsFreeState r.1
  unfolding read_zcrypt_mkvps
  evaluate_state-AreFree true state w h =
      on_read-AreFree card_type (parse_mkvps os queue_path card_type w).0 state
        (parse_mkvps-AreFree os queue_path card_type w) h
  evaluate_state-AreFree false state w h = (on_absent-AreFree card_type state h, h)

  set_state-IsFreeTracker :
      (t : MkvpTracker) (apqn : Text) (state : QueueState)
      → IsFreeTracker t
      → IsFreeState state
      → IsFreeTracker (set_state t apqn state)
  unfolding IsFreeTracker
  set_state-IsFreeTracker t apqn state h f j m e = elim (Bool-cases (apqn == j)) [
    | inl same ↦ f m (rw (get-put, same) at e)
    | inr other ↦ h j m (rw (get-put, other) at e)
  ]

  -- One evaluation publishes no pattern under the name of another attribute, and keeps the invariant.
  pub evaluate-AreFree :
      (t : MkvpTracker) (apqn : Text) (w : os.World)
      → IsFreeTracker t
      → let r = evaluate os t apqn driver queue_path card_type w in
        AreFree r.0.0 × IsFreeTracker r.1
  unfolding evaluate
  evaluate-AreFree t apqn w h = elim (Bool-cases (card_type == cca || card_type == ep11)) [
    | inr keyless ↦ rw keyless (tt, h)
    | inl keyed ↦
        let (present, w') = mkvps_present os driver queue_path w in
        let (a, b) =
          evaluate_state-AreFree present (state_of t apqn) w' (unfold IsFreeTracker in h apqn) in
        rw keyed (a, set_state-IsFreeTracker t apqn _ h b)
  ]
