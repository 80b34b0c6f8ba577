-- ===== src/Proxy/Attempts/Run/Ends.antt =====
-- That the attempts end in time, and with a response if a candidate in reach gives one.
use onair.Prelude.{
  ℕ, zero, suc, ◌+◌, ◌≤◌, ◌≡◌, ap, ◌∙◌, true, false, List, [], ◌∷◌, length, take, if_cases, arith,
}
use onair.Proxy.Routing.Select.{SelectedRoute}
use onair.Proxy.Attempts.Context.{ProxyContext, World, Turn, UpstreamResponse}
use onair.Proxy.Attempts.Run.{answered, run_attempts, fallback_routes, max_attempts_for}
use onair.Proxy.Attempts.Run.Trail.{IsRouted, retries, route_at, verdict, run-Follows}

length-take : {A : Type 0} (n : ℕ) (xs : List A) → length (take n xs) ≤ n
length-take zero xs = omega arith
length-take (suc n) [] = omega arith
length-take (suc n) (x ∷ xs) = omega (arith, length-take n xs)

module _ {V : Type 0} where
  retries-le :
      (turn : ℕ → SelectedRoute V → Turn) (n : ℕ) (route : SelectedRoute V)
      (fallback : List (SelectedRoute V))
      → retries turn n route fallback ≤ length fallback
  retries-le turn n route [] = omega arith
  retries-le turn n route (next ∷ later) =
      let more = retries-le turn (n + 1) next later in
      if_cases (λ k. k ≤ suc (length later)) (verdict (turn n route)).0 (λ t. omega (arith, more))
        (λ f. omega arith)

  -- From the first attempt on, with the fallback routes that the configuration allows: no more
  -- attempts than `max_attempts`, nor than one more than `fallback_attempts`.
  pub run_attempts-le :
      (w : World V) (c : ProxyContext V) (fallback_attempts : ℕ) (routes : List (SelectedRoute V))
      → IsRouted c
      → c.attempt ≡ 1
      → let fallback = fallback_routes fallback_attempts routes in
        let last = (run_attempts w fallback c).1.attempt in
        (last ≤ max_attempts_for fallback) × (last ≤ 1 + fallback_attempts)
  unfolding fallback_routes max_attempts_for
  run_attempts-le w c fallback_attempts routes h one =
      let fallback = take fallback_attempts routes in
      let attempts = (run-Follows w fallback c h).attempts in
      let few = retries-le w.turn c.attempt c.route fallback in
      let short = length-take fallback_attempts routes in
      (omega (arith, attempts, few, one), omega (arith, attempts, few, one, short))

  -- A candidate in reach gives a response: every turn before it fails retryably.
  pub data Reaches (turn : ℕ → SelectedRoute V → Turn) (r : UpstreamResponse)
      : ℕ → SelectedRoute V → List (SelectedRoute V) → Type 0 where
    now :
        {n : ℕ} {route : SelectedRoute V} {fallback : List (SelectedRoute V)}
        → verdict (turn n route) ≡ (false, answered r)
        → Reaches turn r n route fallback
    later :
        {n : ℕ} {route next : SelectedRoute V} {fallback : List (SelectedRoute V)}
        → (verdict (turn n route)).0 ≡ true
        → Reaches turn r (n + 1) next fallback
        → Reaches turn r n route (next ∷ fallback)

  reached :
      (turn : ℕ → SelectedRoute V → Turn) (r : UpstreamResponse) (n : ℕ) (route : SelectedRoute V)
      (fallback : List (SelectedRoute V))
      → Reaches turn r n route fallback
      → let k = retries turn n route fallback in
        (verdict (turn (n + k) (route_at k route fallback))).1 ≡ answered r
  reached turn r n route [] (now v) = let e : n + 0 ≡ n = omega arith in rw e (ap (λ p. p.1) v)
  reached turn r n route (next ∷ fallback) (now v) =
      let f : (verdict (turn n route)).0 ≡ false = ap (λ p. p.0) v in
      let e : n + 0 ≡ n = omega arith in rw f (rw e (ap (λ p. p.1) v))
  reached turn r n route (next ∷ fallback) (later v m) =
      let k = retries turn (n + 1) next fallback in
      let count : n + suc k ≡ n + 1 + k = omega arith in
      rw v (rw count (reached turn r (n + 1) next fallback m))

  -- If a candidate in reach gives a response, the run ends with it.
  pub run_attempts-answers :
      (w : World V) (fallback : List (SelectedRoute V)) (c : ProxyContext V) (r : UpstreamResponse)
      → IsRouted c
      → Reaches w.turn r c.attempt c.route fallback
      → (run_attempts w fallback c).0 ≡ answered r
  run_attempts-answers w fallback c r h m =
      (run-Follows w fallback c h).answer ∙ reached w.turn r c.attempt c.route fallback m
