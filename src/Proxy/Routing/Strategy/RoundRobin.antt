-- ===== src/Proxy/Routing/Strategy/RoundRobin.antt =====
-- The round-robin counters through any sequence of calls.
use onair.Prelude.{
  ℕ, ◌+◌, ◌^◌, ◌%◌, ◌<◌, ◌≡◌, ap, inl, inr, String, List, [], ◌∷◌, eqb, unwrap_or, if◌then◌else◌,
  Bool-cases, false, arith, get, get-put, eq_iff, ◌==◌, ◌&&◌, not,
}
use onair.Proxy.Routing.Strategy.{RoundRobinCounters, next_index}

-- The counter of a key: absent ones are at 0.
abbrev pub counter : RoundRobinCounters → String → ℕ
counter counters key = unwrap_or (get counters key) 0

-- The counters after a sequence of calls `next_index key count`, one after the other.
unfoldable pub run : RoundRobinCounters → List (String × ℕ) → RoundRobinCounters
run counters [] = counters
run counters ((key, count) ∷ calls) = run (next_index counters key count).1 calls

-- The calls for a key that had candidates.
unfoldable pub calls_for : String → List (String × ℕ) → ℕ
calls_for key [] = 0
calls_for key ((k, count) ∷ calls) =
    (if k == key && not (eqb count 0) then 1 else 0) + calls_for key calls

counter-next_index :
    (counters : RoundRobinCounters) (k key : String) (count : ℕ)
    → counter (next_index counters k count).1 key ≡ (
        if k == key && not (eqb count 0)
        then (counter counters key + 1) % 2 ^ 64
        else counter counters key)
unfolding next_index
counter-next_index counters k key count =
    ground
      (arith, get-put k key ((unwrap_or (get counters k) 0 + 1) % 2 ^ 64) counters, eq_iff k key)

-- The counter of a key, after any sequence of calls for this key and others, is where it started
-- plus the number of the calls for this key, wrapped at 2^64.
pub counter-run :
    (counters : RoundRobinCounters) (calls : List (String × ℕ)) (key : String)
    → counter counters key < 2 ^ 64
    → counter (run counters calls) key ≡ (counter counters key + calls_for key calls) % 2 ^ 64
unfolding run calls_for
counter-run counters [] key small = omega arith
counter-run counters ((k, count) ∷ calls) key small =
    let step = counter-next_index counters k key count in
    let later = counter-run (next_index counters k count).1 calls key in
    elim (Bool-cases (k == key && not (eqb count 0))) [
      | inl t ↦ rw t (omega (arith, rw t at step, later (rw (rw t at step) (omega arith))))
      | inr f ↦ rw f (omega (arith, rw f at step, later (rw (rw f at step) small)))
    ]

-- After any sequence of calls for a key and for others, a call for the key with candidates picks
-- the place that the counter leaves modulo their number. The counter is the one before, below
-- 2^64, plus the number of the calls for the key that had candidates, wrapped at 2^64.
pub next_index-run :
    (counters : RoundRobinCounters) (calls : List (String × ℕ)) (key : String) (count : ℕ)
    → counter counters key < 2 ^ 64
    → 0 < count
    → (next_index (run counters calls) key count).0
      ≡ (counter counters key + calls_for key calls) % 2 ^ 64 % count
unfolding next_index
next_index-run counters calls key count small some_candidates =
    rw (positive count some_candidates) (ap (λ c. c % count) (counter-run counters calls key small))
  where
    positive : (n : ℕ) → 0 < n → eqb n 0 ≡ false
    positive n h = ground arith
