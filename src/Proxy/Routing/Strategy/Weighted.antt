-- ===== src/Proxy/Routing/Strategy/Weighted.antt =====
-- What the weighted strategy and the sticky one pick.
use onair.Prelude.{
  ℕ, suc, ◌+◌, ◌≤◌, ◌<◌, ◌≡◌, refl, inl, inr, some, List, [], ◌∷◌, ltb, leb, length, take,
  Bool-cases, ltb→lt, arith, false,
}
use onair.Proxy.Routing.Strategy.{weighted_index, weighted_rotation, sum}

-- The interval of the drawn numbers that belong to the weight at place `i`.
unfoldable pub IsBracketed : ℕ → ℕ → List ℕ → ℕ → Type 0
IsBracketed pick base weights i =
    (i < length weights)
    × (base + sum (take i weights) ≤ pick)
    × (pick < base + sum (take (suc i) weights))

weighted_index-IsBracketed :
    (pick base : ℕ) (weights : List ℕ)
    → base ≤ pick
    → pick < base + sum weights
    → (i : ℕ) × (weighted_index pick base weights ≡ some i) × IsBracketed pick base weights i
unfolding weighted_index sum IsBracketed
weighted_index-IsBracketed pick base [] low high = absurd (omega arith)
weighted_index-IsBracketed pick base (w ∷ ws) low high = elim (Bool-cases (ltb pick (base + w))) [
  | inl t ↦ (0, rw t refl, (omega arith, omega arith, omega (arith, ltb→lt pick (base + w) t)))
  | inr f ↦
      let (i, found, (bound, from, below)) =
        weighted_index-IsBracketed pick (base + w) ws (ground arith) (omega arith) in
      (suc i, rw f (rw found refl), (omega arith, omega arith, omega arith))
]

-- With at least two candidates and a number drawn below the sum of their weights, the weighted
-- strategy picks the candidate whose interval of the running sums holds the number: an interval
-- as long as the weight of the candidate.
pub weighted_rotation-IsBracketed :
    (draw : ℕ → ℕ) (weights : List ℕ)
    → 1 < length weights
    → draw (sum weights) < sum weights
    → IsBracketed (draw (sum weights)) 0 weights (weighted_rotation draw weights)
unfolding weighted_rotation
weighted_rotation-IsBracketed draw weights several low =
    let (i, found, bracket) =
      weighted_index-IsBracketed (draw (sum weights)) 0 weights (omega arith) (omega arith) in
    rw (go (length weights) several, found) bracket
  where
    go : (n : ℕ) → 1 < n → leb n 1 ≡ false
    go n h = ground arith
