-- ===== src/Observe/Health/Stores.antt =====
-- The store of all backends, and what its snapshot shows of each.
use onair.Prelude.{
  ℕ, ◌≡◌, refl, ap, String, List, [], ◌∷◌, map, Option, ◌==◌, put, get-put, arith, eq_iff,
  if◌then◌else◌,
}
use onair.Observe.Health.{
  BackendHealthRecord, BackendHealthStore, record_of, record_success, record_failure, snapshot,
  snapshot_of,
}
use onair.Observe.Health.Histories.{Observation, success, failure, observed}

-- The store after the observations of several backends, the latest first.
unfoldable pub recorded : (ℕ → ℕ → Option ℕ) → List (String × Observation) → BackendHealthStore
recorded checked_sub [] = []
recorded checked_sub ((backend, success wall latency code source) ∷ older) =
    record_success (recorded checked_sub older) backend wall latency code source
recorded checked_sub ((backend, failure wall now latency code kind source) ∷ older) =
    record_failure checked_sub (recorded checked_sub older) backend wall now latency code kind
      source

-- The observations of one backend.
abbrev pub history_of : String → List (String × Observation) → List Observation
history_of b [] = []
history_of b ((backend, o) ∷ older) =
    let rest = history_of b older in if backend == b then o ∷ rest else rest

record_of-put :
    (store : BackendHealthStore) (backend b : String) (r : BackendHealthRecord)
    → record_of (put backend r store) b ≡ (if backend == b then r else record_of store b)
record_of-put store backend b r = rw get-put (ground arith)

record_of-recorded :
    (checked_sub : ℕ → ℕ → Option ℕ) (h : List (String × Observation)) (b : String)
    → record_of (recorded checked_sub h) b ≡ observed checked_sub (history_of b h)
unfolding recorded observed record_success record_failure
record_of-recorded checked_sub [] b = refl
record_of-recorded checked_sub ((backend, success wall latency code source) ∷ older) b =
    rw record_of-put (
      ground (
        arith,
        record_of-recorded checked_sub older backend,
        record_of-recorded checked_sub older b,
        eq_iff backend b,
      ))
record_of-recorded checked_sub ((backend, failure wall now latency code kind source) ∷ older) b =
    rw record_of-put (
      ground (
        arith,
        record_of-recorded checked_sub older backend,
        record_of-recorded checked_sub older b,
        eq_iff backend b,
      ))

-- After any interleaving of observations of several backends, the snapshot of the configured ones
-- shows of each, in their order, what its own observations alone make of it.
pub snapshot-recorded :
    (checked_sub : ℕ → ℕ → Option ℕ) (h : List (String × Observation)) (backends : List String)
    → snapshot (recorded checked_sub h) backends
      ≡ map (λ b. snapshot_of b (observed checked_sub (history_of b h))) backends
unfolding snapshot
snapshot-recorded checked_sub h [] = refl
snapshot-recorded checked_sub h (b ∷ bs) = rw (record_of-recorded checked_sub h b) (
    ap (λ l. snapshot_of b (observed checked_sub (history_of b h)) ∷ l)
      (snapshot-recorded checked_sub h bs))
