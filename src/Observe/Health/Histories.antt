-- ===== src/Observe/Health/Histories.antt =====
-- The health of one backend after any history of observations.
use onair.Prelude.{
  ℕ, ◌-◌, ◌≤◌, ◌<◌, ◌≡◌, refl, sym, ap, ◌∙◌, Elem-append_right, here, All-Elem, String, List, [],
  ◌∷◌, ◌++◌, Option, some, All, leb, length, arith, if◌then◌else◌,
}
use onair.Observe.Health.{
  BackendHealthRecord, default_record, ObservationSource, observe_success, observe_failure,
  failure_window, status, unhealthy_failure_threshold,
}
use onair.Observe.Health.Window.{
  IsAscending, since, pop_before-since, since-append, since-since, since-All_kept,
  since-IsAscending, append-IsAscending,
}

pub data Observation : Type 0 where
  success : (wall latency code : ℕ) → ObservationSource → Observation
  failure : (wall now latency code : ℕ) → String → ObservationSource → Observation

-- Histories have the latest observation first.
unfoldable pub observed : (ℕ → ℕ → Option ℕ) → List Observation → BackendHealthRecord
observed checked_sub [] = default_record
observed checked_sub (success wall latency code source ∷ older) =
    observe_success (observed checked_sub older) wall latency code source
observed checked_sub (failure wall now latency code kind source ∷ older) =
    observe_failure checked_sub (observed checked_sub older) wall now latency code kind source

-- The instants of the failures since the last success, the oldest first.
unfoldable pub streak : List Observation → List ℕ
streak [] = []
streak (success wall latency code source ∷ older) = []
streak (failure wall now latency code kind source ∷ older) = streak older ++ (now ∷ [])

-- The start of the window: a minute before the latest failure of the streak.
unfoldable pub window_start : List Observation → ℕ
window_start [] = 0
window_start (success wall latency code source ∷ older) = 0
window_start (failure wall now latency code kind source ∷ older) = now - failure_window

-- The instants of the failures do not go back, and the first is a minute after the clock's zero.
unfoldable pub IsTimed : List Observation → Type 0
IsTimed [] = Unit
IsTimed (success wall latency code source ∷ older) = IsTimed older
IsTimed (failure wall now latency code kind source ∷ older) =
    (failure_window ≤ now) × All (λ t. t ≤ now) (streak older) × IsTimed older

-- What `Instant::checked_sub` promises where the result is an instant.
unfoldable pub Subtracts : (ℕ → ℕ → Option ℕ) → Type 0
Subtracts checked_sub = (t d : ℕ) → d ≤ t → checked_sub t d ≡ some (t - d)

streak-IsAscending : (history : List Observation) → IsTimed history → IsAscending (streak history)
unfolding streak IsTimed
streak-IsAscending [] timed = _
streak-IsAscending (success wall latency code source ∷ older) timed = _
streak-IsAscending (failure wall now latency code kind source ∷ older) (late, after, timed) =
    append-IsAscending (streak older) now (streak-IsAscending older timed) after

window_start_mono :
    (older : List Observation) (now : ℕ)
    → All (λ t. t ≤ now) (streak older)
    → window_start older ≤ now - failure_window
unfolding window_start streak
window_start_mono [] now h = omega arith
window_start_mono (success wall latency code source ∷ older) now h = omega arith
window_start_mono (failure wall before latency code kind source ∷ older) now h =
    let latest : before ≤ now =
      All-Elem (λ t. t ≤ now) h (Elem-append_right (streak older) (before ∷ []) (here refl)) in
    omega (arith, latest)

module _ (checked_sub : ℕ → ℕ → Option ℕ) (subtracts : Subtracts checked_sub) where
  -- The recent failures are those since the last success that lie in the minute before the latest.
  pub recent_failures-observed :
      (history : List Observation)
      → IsTimed history
      → (observed checked_sub history).recent_failures
        ≡ since (window_start history) (streak history)
  unfolding observed streak window_start IsTimed observe_success observe_failure Subtracts
  recent_failures-observed [] timed = refl
  recent_failures-observed (success wall latency code source ∷ older) timed = refl
  recent_failures-observed (failure wall now latency code kind source ∷ older)
        (late, after, timed) =
      let ih = recent_failures-observed older timed in
      let start = window_start older in
      let cutoff = now - failure_window in
      let kept = since start (streak older) in
      let ascending : IsAscending (kept ++ (now ∷ [])) =
        append-IsAscending kept now
          (since-IsAscending start (streak older) (streak-IsAscending older timed))
          (since-All_kept (λ t. t ≤ now) start (streak older) after) in
      let popped =
        pop_before-since cutoff (kept ++ (now ∷ [])) ascending
        ∙ since-append cutoff kept (now ∷ [])
        ∙ ap (λ l. l ++ since cutoff (now ∷ []))
            (since-since start cutoff (streak older) (window_start_mono older now after))
        ∙ sym (since-append cutoff (streak older) (now ∷ [])) in
      rw (subtracts now failure_window late) (rw ih popped)

-- The status that a history calls for.
unfoldable pub expected_status : List Observation → String
expected_status [] = "unknown"
expected_status (success wall latency code source ∷ older) = "healthy"
expected_status (failure wall now latency code kind source ∷ older) =
    if leb unhealthy_failure_threshold
      (length (since (now - failure_window) (streak older ++ (now ∷ []))))
    then "unhealthy"
    else "degraded"

length-since_latest :
    (now : ℕ) (ts : List ℕ) → 0 < length (since (now - failure_window) (ts ++ (now ∷ [])))
length-since_latest now [] = ground arith
length-since_latest now (t ∷ ts) = ground (arith, length-since_latest now ts)

-- After any history of successes and failures of traffic and probes, a backend is unknown if it
-- was never observed and healthy if the latest observation is a success. Otherwise it is
-- unhealthy if at least three failures since the last success lie in the minute before the
-- latest, and degraded if fewer do. The failures' instants do not go back and are a minute or
-- more after the clock's zero, where `checked_sub` subtracts.
pub status-observed :
    (checked_sub : ℕ → ℕ → Option ℕ) (subtracts : Subtracts checked_sub)
    (history : List Observation)
    → IsTimed history
    → status (observed checked_sub history) ≡ expected_status history
unfolding status expected_status observed streak window_start observe_success observe_failure
status-observed checked_sub subtracts history timed =
    go history (recent_failures-observed checked_sub subtracts history timed)
  where
    go :
        (h : List Observation)
        → (observed checked_sub h).recent_failures ≡ since (window_start h) (streak h)
        → status (observed checked_sub h) ≡ expected_status h
    go [] recent = refl
    go (success wall latency code source ∷ older) recent = refl
    go (failure wall now latency code kind source ∷ older) recent =
        rw recent (ground (arith, length-since_latest now (streak older)))
