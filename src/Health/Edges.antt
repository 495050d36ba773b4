-- ===== src/Health/Edges.antt =====
-- The watchdog logs edges, and agrees with the probe.
use k8s_cex_dra_driver.Prelude.{
  ℕ, ◌≤◌, ◌≢◌, not, leb, ◌↔◌, ◌⊎◌, Text, List, [], ◌∷◌, Bool, true, false, Option, none, some, ◌≡◌,
  refl, text_eq, text_beq_iff, arith, ap, ◌∙◌,
}
use k8s_cex_dra_driver.Prelude.Int.{ℤ, pos, negsuc}
use k8s_cex_dra_driver.Prelude.Strings.{bytes}
use k8s_cex_dra_driver.Health.{
  Edge, no_progress, completing_again, tick, watch, age, check, logged, exceeds,
}

-- The lines alternate; the first is about lost progress if the loop was not stale before.
unfoldable pub Alternates : Bool → List Edge → Type 0
Alternates stale [] = Unit
Alternates false (no_progress ∷ edges) = Alternates true edges
Alternates true (completing_again ∷ edges) = Alternates false edges
Alternates _ _ = ⊥

-- No age is within a negative threshold.
abbrev pub within : ℤ → ℕ → Bool
within (pos t) a = leb a t
within (negsuc n) a = false

pub exceeds_lem : (threshold : ℤ) (a : ℕ) → exceeds threshold a ≡ not (within threshold a)
unfolding exceeds
exceeds_lem (pos t) a = ground arith
exceeds_lem (negsuc n) a = refl

-- The age that the last tick read is above the threshold.
unfoldable pub last_is_stale : ℤ → Bool → List ℕ → Bool
last_is_stale threshold stale [] = stale
last_is_stale threshold stale (a ∷ ages) = last_is_stale threshold (not (within threshold a)) ages

-- The line between two states.
edge_of : Bool → Bool → Option Edge
edge_of false true = some no_progress
edge_of true false = some completing_again
edge_of _ _ = none

tick_lem :
    (threshold : ℤ) (stale : Bool) (a : ℕ)
    → tick threshold stale a ≡ (exceeds threshold a, edge_of stale (exceeds threshold a))
unfolding tick edge_of
tick_lem threshold stale a = ground arith

logged-Alternates :
    (stale stale' : Bool) (edges : List Edge)
    → Alternates stale' edges
    → Alternates stale (logged (edge_of stale stale') edges)
unfolding Alternates edge_of
logged-Alternates false false edges h = h
logged-Alternates false true edges h = h
logged-Alternates true false edges h = h
logged-Alternates true true edges h = h

-- Over any ticks the watchdog logs its two lines in turn, and ends in the state of the last age.
pub watch-Alternates :
    (threshold : ℤ) (stale : Bool) (ages : List ℕ)
    → Alternates stale (watch threshold stale ages).0
      × ((watch threshold stale ages).1 ≡ last_is_stale threshold stale ages)
unfolding watch Alternates last_is_stale
watch-Alternates threshold stale [] = (tt, refl)
watch-Alternates threshold stale (a ∷ ages) =
    let (alternates, last) = watch-Alternates threshold (exceeds threshold a) ages in
    rw (watch, tick_lem)
      (
        logged-Alternates stale (exceeds threshold a) (watch threshold (exceeds threshold a) ages).0
            alternates,
        last ∙ ap (λ b. last_is_stale threshold b ages) (exceeds_lem threshold a),
      )

check_within :
    (heartbeat : Option ℕ) (threshold now : ℕ) (service : Text)
    → (check heartbeat (pos threshold) service now ≡ some true)
      ↔ (((service ≡ []) ⊎ (service ≡ bytes "liveness")) × (age heartbeat now ≤ threshold))
unfolding check exceeds
check_within heartbeat threshold now service =
    ground (arith, text_beq_iff service [], text_beq_iff service (bytes "liveness"))

check_negative :
    (heartbeat : Option ℕ) (n now : ℕ) (service : Text)
    → check heartbeat (negsuc n) service now ≢ some true
unfolding check exceeds
check_negative heartbeat n now service h = ground arith

-- A probe of the liveness service, by its name or by default, is answered SERVING exactly while the
-- age is within the threshold, which it never is if the threshold is negative; any other service is
-- unknown.
pub check_iff :
    (heartbeat : Option ℕ) (threshold : ℤ) (now : ℕ) (service : Text)
    → (check heartbeat threshold service now ≡ some true) ↔ (
        ((service ≡ []) ⊎ (service ≡ bytes "liveness"))
        × (t : ℕ) × (threshold ≡ pos t)
        × (age heartbeat now ≤ t))
check_iff heartbeat (pos t) now service =
    let (there, back) = check_within heartbeat t now service in
    (
      λ h. let (named, fresh) = there h in (named, t, refl, fresh),
      λ (named, t', same, fresh). back (named, ground (arith, same, fresh)),
    )
check_iff heartbeat (negsuc n) now service = (
  λ h. absurd (check_negative heartbeat n now service h),
  λ (named, t, same, fresh). absurd (ground (arith, same)),
)
