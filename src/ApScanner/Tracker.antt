-- ===== src/ApScanner/Tracker.antt =====
-- The per-queue MKVP state that the scanner keeps from one scan to the next (`MKVPTracker`).
pub mod History
pub mod Keys
use k8s_cex_dra_driver.Prelude.{
  ℕ, ◌+◌, Text, List, [], ◌∷◌, ◌++◌, Bool, true, false, not, ◌||◌, Option, none, some, ◌==◌,
  text_eq, leb, if◌then◌else◌,
}
use k8s_cex_dra_driver.Prelude.Exec.{Result, ok, err, is_ok}
use k8s_cex_dra_driver.Prelude.Dict.{Dict, get, put, or_default}
use k8s_cex_dra_driver.Prelude.Strings.{bytes}
use k8s_cex_dra_driver.Os.{Os, FilePath}
use k8s_cex_dra_driver.Sysfs.Mkvp.{
  Mkvps, MkvpError, cca, ep11, mkvps_path, parse_mkvps, unknown_mkvps,
}

abbrev pub mkvp_retry_budget : ℕ
mkvp_retry_budget = 3

unfoldable pub zcrypt_driver : Text
zcrypt_driver = bytes "cex4queue"

unfoldable pub vfio_ap_driver : Text
vfio_ap_driver = bytes "vfio_ap"

-- The values of cex.ibm.com/mkvp_state.
pub data MkvpState : Type 0 where
  known cached unknown : MkvpState

-- A `nil` cache is `none`.
pub record QueueState : Type 0 where
  pub cache : Option Mkvps
  pub fail_count : ℕ

abbrev pub fresh : QueueState
fresh = record { cache = none; fail_count = 0 }

pub record MkvpTracker : Type 0 where
  pub queues : Dict Text QueueState
  pub first_scan_done : Bool

abbrev pub new_mkvp_tracker : MkvpTracker
new_mkvp_tracker = record { queues = []; first_scan_done = false }

abbrev pub Reading : Type 0
Reading = Mkvps × MkvpState

-- `readZcryptMKVPs` from the result of the read on.
unfoldable pub on_read : Text → Result MkvpError Mkvps → QueueState → Reading × QueueState
on_read card_type (ok mkvps) state = ((mkvps, known), record { cache = some mkvps; fail_count = 0 })
on_read card_type (err e) state = elim state.cache [
  | none ↦ ((unknown_mkvps card_type, unknown), state)
  | some m ↦
      if leb (state.fail_count + 1) mkvp_retry_budget
      then ((m, cached), record state { fail_count = state.fail_count + 1 })
      else (
        (unknown_mkvps card_type, unknown),
        record { cache = none; fail_count = state.fail_count + 1 },
      )
]

-- No mkvps file to read: the end of `Evaluate`.
unfoldable pub on_absent : Text → QueueState → Reading
on_absent card_type state = elim state.cache [
  | some m ↦ (m, cached)
  | none ↦ (unknown_mkvps card_type, unknown)
]

abbrev pub state_of : MkvpTracker → Text → QueueState
state_of t apqn = or_default fresh (get apqn t.queues)

abbrev pub set_state : MkvpTracker → Text → QueueState → MkvpTracker
set_state t apqn state = record t { queues = put apqn state t.queues }

module _ (os : Os) where
  unfoldable pub file_exists : FilePath → os.World → Bool × os.World
  file_exists path w = let (r, w') = os.stat path w in (is_ok r, w')

  unfoldable pub read_zcrypt_mkvps :
      FilePath → Text → QueueState → os.World → Reading × QueueState × os.World
  unfolding on_read
  read_zcrypt_mkvps queue_path card_type state w =
      let (r, w') = parse_mkvps os queue_path card_type w in
      let (reading, state') = on_read card_type r state in (reading, state', w')

  -- The file is looked for only on a queue that zcrypt drives.
  abbrev mkvps_present : Text → FilePath → os.World → Bool × os.World
  mkvps_present driver queue_path w =
      if driver == zcrypt_driver then file_exists (mkvps_path queue_path) w else (false, w)

  abbrev evaluate_state :
      Bool → FilePath → Text → QueueState → os.World → Reading × QueueState × os.World
  evaluate_state true queue_path card_type state w = read_zcrypt_mkvps queue_path card_type state w
  evaluate_state false queue_path card_type state w = (on_absent card_type state, state, w)

  unfoldable pub evaluate :
      MkvpTracker → Text → Text → FilePath → Text → os.World → Reading × MkvpTracker × os.World
  unfolding file_exists read_zcrypt_mkvps on_absent
  evaluate t apqn driver queue_path card_type w =
      if not (card_type == cca || card_type == ep11)
      then (([], known), t, w)
      else let (present, w') = mkvps_present driver queue_path w in
        let (reading, state, w'') =
          evaluate_state present queue_path card_type (state_of t apqn) w' in
        (reading, set_state t apqn state, w'')
