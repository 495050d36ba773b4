-- ===== src/ApScanner/Tracker/History.antt =====
-- The reading of a queue is a function of what was observed of it so far.
use k8s_cex_dra_driver.Prelude.{
  ℕ, ◌+◌, ◌≤◌, Text, List, [], ◌∷◌, true, ◌||◌, Option, none, some, ◌≡◌, ◌==◌, text_eq, leb, arith,
  if◌then◌else◌,
}
use k8s_cex_dra_driver.Prelude.Exec.{Result, ok, err}
use k8s_cex_dra_driver.Os.{Os, FilePath}
use k8s_cex_dra_driver.Sysfs.Mkvp.{Mkvps, MkvpError, cca, ep11, parse_mkvps, unknown_mkvps}
use k8s_cex_dra_driver.ApScanner.Tracker.{
  known, cached, unknown, Reading, QueueState, fresh, MkvpTracker, state_of, set_state, on_read,
  on_absent, mkvps_present, evaluate,
}

-- What one scan sees of a queue: no file to read, a read that fails, or one that succeeds.
pub data Observation : Type 0 where
  absent : Observation
  read_failed : MkvpError → Observation
  read_ok : Mkvps → Observation

unfoldable pub advance : Text → Observation → QueueState → Reading × QueueState
unfolding on_read on_absent
advance card_type absent state = (on_absent card_type state, state)
advance card_type (read_failed e) state = on_read card_type (err e) state
advance card_type (read_ok m) state = on_read card_type (ok m) state

abbrev of_result : Result MkvpError Mkvps → Observation
of_result (ok m) = read_ok m
of_result (err e) = read_failed e

module _ (os : Os) (driver : Text) (queue_path : FilePath) (card_type : Text) (w : os.World) where
  abbrev looked : os.World
  looked = (mkvps_present os driver queue_path w).1

  -- The observation that a scan makes, and the world after it.
  unfoldable pub observe : Observation × os.World
  observe =
      if (mkvps_present os driver queue_path w).0
      then (
        of_result (parse_mkvps os queue_path card_type looked).0,
        (parse_mkvps os queue_path card_type looked).1,
      )
      else (absent, looked)

  -- On a card type with master keys, `evaluate` advances the state of its own queue by what it
  -- observes, and changes no other queue of the tracker.
  pub evaluate-advance :
      (t : MkvpTracker) (apqn : Text)
      → (card_type == cca || card_type == ep11) ≡ true
      → let (o, w') = observe in
        let (reading, state) = advance card_type o (state_of t apqn) in
        evaluate os t apqn driver queue_path card_type w ≡ (reading, set_state t apqn state, w')
  unfolding evaluate observe advance
  evaluate-advance t apqn h = ground arith

-- Histories are listed with the latest observation first.
-- The patterns of the last successful read, if no more reads than the budget failed since: `n` of
-- them after the whole list.
unfoldable pub usable : ℕ → List Observation → Option Mkvps
usable n [] = none
usable n (absent ∷ history) = usable n history
usable n (read_failed e ∷ history) = usable (n + 1) history
usable n (read_ok m ∷ history) = if leb n 3 then some m else none

abbrev pub cached_or_unknown : Text → Option Mkvps → Reading
cached_or_unknown card_type (some m) = (m, cached)
cached_or_unknown card_type none = (unknown_mkvps card_type, unknown)

unfoldable pub reading_of : Text → List Observation → Reading
unfolding usable
reading_of card_type (read_ok m ∷ history) = (m, known)
reading_of card_type history = cached_or_unknown card_type (usable 0 history)

-- The state of a queue after a history.
unfoldable pub state_after : Text → List Observation → QueueState
state_after card_type [] = fresh
state_after card_type (o ∷ history) = (advance card_type o (state_after card_type history)).1

abbrev kept : QueueState → ℕ → Option Mkvps
kept state n = elim state.cache [
  | none ↦ none
  | some m ↦ if leb (state.fail_count + n) 3 then some m else none
]

abbrev WithinBudget : QueueState → Type 0
WithinBudget state = (m : Mkvps) → state.cache ≡ some m → state.fail_count ≤ 3

-- One call of `Evaluate` for a card with master keys.
pub record Call : Type 0 where
  pub apqn : Text
  pub driver : Text
  pub queue_path : FilePath
  pub card_type : Text

abbrev pub HasMasterKeys : Call → Type 0
HasMasterKeys c = (c.card_type == cca || c.card_type == ep11) ≡ true

-- The history of each queue.
abbrev pub Log : Type 0
Log = Text → List Observation

module _ (os : Os) where
  abbrev pub observed : Call → os.World → Observation × os.World
  observed c w = observe os c.driver c.queue_path c.card_type w

  abbrev pub add : Call → Log → os.World → Log
  add c log w j = if c.apqn == j then (observed c w).0 ∷ log j else log j

  -- The tracker, the histories and the world after some calls.
  unfoldable pub run : List Call → MkvpTracker → Log → os.World → MkvpTracker × Log × os.World
  run [] t log w = (t, log, w)
  run (c ∷ calls) t log w =
      let (_, t', w') = evaluate os t c.apqn c.driver c.queue_path c.card_type w in
      run calls t' (add c log w) w'

  abbrev Follows : MkvpTracker → Log → Type 0
  Follows t log = (card_type j : Text) → state_of t j ≡ state_after card_type (log j)
