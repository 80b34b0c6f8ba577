-- ===== src/Proxy/Attempts/Run/Trail.antt =====
-- The trail of the attempts: which candidates the loop tries, and what it answers.
use onair.Prelude.{
  ℕ, zero, suc, ◌+◌, ◌≡◌, refl, sym, ap, Bool, false, Option, none, some, List, [], ◌∷◌, ◌++◌, map,
  length, take, length-append, append_assoc, map-append, subst, String, if◌then◌else◌, Bool-cases,
  inl, inr, arith,
}
use onair.Core.Error.{ApiError, internal}
use onair.Proxy.Routing.Select.{SelectedRoute}
use onair.Proxy.Attempts.Builder.{InspectorAttemptBuilder}
use onair.Proxy.Attempts.Failure.{FailureKind, classify_failure, is_retryable, api_error}
use onair.Proxy.Attempts.Context.{
  ProxyContext, World, Turn, SendResult, MetricLabels, response, shutdown, request_error,
  record_retry, record_final_failure, apply_route, record_retried_attempt, count_attempt,
  mark_forwarded, record_context_inspector,
}
use onair.Proxy.Attempts.Run.{
  LoopEnd, TurnEnd, answered, refused, run_attempts, attempt_turn, give_up, settled, failed,
  prepared, send_attempt, answer,
}

-- What a turn says to the loop: to go on if there is a candidate, and what to answer if not.
abbrev pub verdict_of_send : SendResult → Bool × LoopEnd
verdict_of_send (response r) = (false, answered r)
verdict_of_send shutdown = (false, refused internal)
verdict_of_send (request_error e) =
    (is_retryable (classify_failure e), refused (api_error (classify_failure e)))

abbrev pub verdict_of : Option ApiError → SendResult → Bool × LoopEnd
verdict_of (some e) sent = (false, refused e)
verdict_of none sent = verdict_of_send sent

abbrev pub verdict : Turn → Bool × LoopEnd
verdict t = verdict_of t.rewrite_error t.sent

module _ {V : Type 0} where
  -- The number of fallback routes that are taken: one for each retryable failure from the start on.
  abbrev pub retries :
      (ℕ → SelectedRoute V → Turn) → ℕ → SelectedRoute V → List (SelectedRoute V) → ℕ
  retries turn n route [] = 0
  retries turn n route (next ∷ later) =
      let more = retries turn (n + 1) next later in
      if (verdict (turn n route)).0 then suc more else 0

  abbrev pub route_at : ℕ → SelectedRoute V → List (SelectedRoute V) → SelectedRoute V
  route_at zero route fallback = route
  route_at (suc n) route [] = route
  route_at (suc n) route (next ∷ later) = route_at n next later

  -- What a turn leaves of the context as it was, and the attempt that it counts.
  abbrev pub Kept : ProxyContext V → ProxyContext V → Type 0
  Kept c d =
      (d.attempt ≡ c.attempt)
      × (d.route ≡ c.route)
      × (d.retried_attempts ≡ c.retried_attempts)
      × (d.health ≡ c.health)
      × (d.labels ≡ c.labels)
      × (d.backend_requests ≡ c.backend_requests ++ (c.labels ∷ []))

  -- The ends that a turn with a verdict can have.
  pub data TurnCase (v : Bool × LoopEnd) (c : ProxyContext V) : TurnEnd V → Type 0 where
    settles :
        {e : LoopEnd} {d : ProxyContext V} → v ≡ (false, e) → Kept c d → TurnCase v c (settled e d)
    fails :
        {kind : FailureKind} {b : InspectorAttemptBuilder} {d : ProxyContext V}
        → v ≡ (is_retryable kind, refused (api_error kind))
        → Kept c d
        → TurnCase v c (failed kind b d)

  send_attempt-case :
      (t : Turn) (sent : SendResult) (b : InspectorAttemptBuilder) (c : ProxyContext V)
      → TurnCase
          (verdict_of_send sent)
          c
          (send_attempt t sent b (mark_forwarded t (count_attempt c)))
  unfolding send_attempt answer mark_forwarded count_attempt
  send_attempt-case t (response r) b c = settles refl (refl, refl, refl, refl, refl, refl)
  send_attempt-case t shutdown b c = settles refl (refl, refl, refl, refl, refl, refl)
  send_attempt-case t (request_error e) b c = fails refl (refl, refl, refl, refl, refl, refl)

  prepared-case :
      (t : Turn) (o : Option ApiError) (c : ProxyContext V)
      → TurnCase (verdict_of o t.sent) c (prepared t o c)
  unfolding prepared count_attempt
  prepared-case t (some e) c = settles refl (refl, refl, refl, refl, refl, refl)
  prepared-case t none c = send_attempt-case t t.sent _ c

  pub attempt_turn-case :
      (w : World V) (c : ProxyContext V)
      → TurnCase (verdict (w.turn c.attempt c.route)) c (attempt_turn w c)
  unfolding attempt_turn
  attempt_turn-case w c = let t = w.turn c.attempt c.route in prepared-case t t.rewrite_error c

  pub run-settled :
      (w : World V) (fallback : List (SelectedRoute V)) (c d : ProxyContext V) (e : LoopEnd)
      → attempt_turn w c ≡ settled e d
      → run_attempts w fallback c ≡ (e, d)
  unfolding run_attempts
  run-settled w [] c d e h = rw (run_attempts, h) refl
  run-settled w (next ∷ later) c d e h = rw (run_attempts, h) refl

  pub run-failed_last :
      (w : World V) (c d : ProxyContext V) (kind : FailureKind) (b : InspectorAttemptBuilder)
      → attempt_turn w c ≡ failed kind b d
      → run_attempts w [] c ≡ give_up w (w.turn c.attempt c.route) kind b d
  unfolding run_attempts
  run-failed_last w c d kind b h = rw (run_attempts, h) refl

  pub run-failed :
      (w : World V) (next : SelectedRoute V) (later : List (SelectedRoute V)) (c d : ProxyContext V)
      (kind : FailureKind) (b : InspectorAttemptBuilder)
      → attempt_turn w c ≡ failed kind b d
      → let t = w.turn c.attempt c.route in
        run_attempts w (next ∷ later) c ≡ (
          if is_retryable kind
          then run_attempts w later (record_retry w t b kind next d)
          else give_up w t kind b d)
  unfolding run_attempts
  run-failed w next later c d kind b h = rw (run_attempts, h) refl

  abbrev pub ids : List (SelectedRoute V) → List String
  ids = map (λ (r : SelectedRoute V). r.backend_id)

  abbrev pub requested : ProxyContext V → List String
  requested c = map (λ (l : MetricLabels). l.backend) c.backend_requests

  -- What holds of a run from `c` that takes `n` fallback routes.
  pub record Follows (w : World V) (fallback : List (SelectedRoute V)) (c : ProxyContext V) (n : ℕ)
      (result : LoopEnd × ProxyContext V) : Type 0 where
    pub answer : result.0 ≡ (verdict (w.turn (c.attempt + n) (route_at n c.route fallback))).1
    pub attempts : result.1.attempt ≡ c.attempt + n
    pub retried : length result.1.retried_attempts ≡ length c.retried_attempts + n
    pub backends : requested result.1 ≡ requested c ++ ids (take (suc n) (c.route ∷ fallback))

  -- The labels name the backend of the route.
  abbrev pub IsRouted : ProxyContext V → Type 0
  IsRouted c = c.labels.backend ≡ c.route.backend_id

  counted :
      (c d : ProxyContext V)
      → IsRouted c
      → Kept c d
      → requested d ≡ requested c ++ (c.route.backend_id ∷ [])
  counted c d h k = rw (k.5, map-append (λ l. l.backend) c.backend_requests (c.labels ∷ []), h) refl

  -- A run that ends with the turn that it starts with.
  stops :
      (w : World V) (fallback : List (SelectedRoute V)) (c d : ProxyContext V) (end : LoopEnd)
      → (verdict (w.turn c.attempt c.route)).1 ≡ end
      → d.attempt ≡ c.attempt
      → d.retried_attempts ≡ c.retried_attempts
      → requested d ≡ requested c ++ (c.route.backend_id ∷ [])
      → Follows w fallback c 0 (end, d)
  stops w fallback c d end v a r q =
      let none_more : c.attempt + 0 ≡ c.attempt = omega arith in
      record {
        answer = rw none_more (sym v);
        attempts = omega (arith, a);
        retried = rw r (omega arith);
        backends = q;
      }

  -- A run that goes on with the next route from a context with one more attempt.
  goes_on :
      (w : World V) (next : SelectedRoute V) (later : List (SelectedRoute V)) (c d : ProxyContext V)
      (n : ℕ) (result : LoopEnd × ProxyContext V)
      → d.attempt ≡ c.attempt + 1
      → d.route ≡ next
      → length d.retried_attempts ≡ length c.retried_attempts + 1
      → requested d ≡ requested c ++ (c.route.backend_id ∷ [])
      → Follows w later d n result
      → Follows w (next ∷ later) c (suc n) result
  goes_on w next later c d n result a r l q f =
      let count : d.attempt + n ≡ c.attempt + suc n = omega (arith, a) in
      record {
        answer = rw (f.answer, count, r) refl;
        attempts = omega (arith, f.attempts, a);
        retried = omega (arith, f.retried, l);
        backends = rw (f.backends, q, r) (append_assoc (requested c) _ _);
      }

  retried-one :
      (w : World V) (c d : ProxyContext V) (t : Turn) (b : InspectorAttemptBuilder)
      (kind : FailureKind) (next : SelectedRoute V)
      → d.retried_attempts ≡ c.retried_attempts
      → length (record_retry w t b kind next d).retried_attempts ≡ length c.retried_attempts + 1
  unfolding record_retry record_retried_attempt apply_route
  retried-one w c d t b kind next r = rw (r, length-append c.retried_attempts _) refl

  -- The run of the loop from a context whose labels name its backend: it takes a fallback route for
  -- each retryable failure in a row while there is one, in order, each attempt is counted and each
  -- retried one recorded, and it answers what the last turn says.
  pub run-Follows :
      (w : World V) (fallback : List (SelectedRoute V)) (c : ProxyContext V)
      → IsRouted c
      → Follows w fallback c (retries w.turn c.attempt c.route fallback) (run_attempts w fallback c)
  unfolding record_retry apply_route record_retried_attempt give_up record_final_failure
      record_context_inspector
  run-Follows w [] c h = go (attempt_turn w c) refl (attempt_turn-case w c)
    where
      go :
          (end : TurnEnd V)
          → attempt_turn w c ≡ end
          → TurnCase (verdict (w.turn c.attempt c.route)) c end
          → Follows w [] c 0 (run_attempts w [] c)
      go (settled e d) same (settles v k) =
          rw (run-settled w [] c d e same)
            (stops w [] c d e (ap (λ p. p.1) v) k.0 k.2 (counted c d h k))
      go (failed kind b d) same (fails v k) =
          rw (run-failed_last w c d kind b same)
            (stops w [] c _ (refused (api_error kind)) (ap (λ p. p.1) v) k.0 k.2 (counted c d h k))
  run-Follows w (next ∷ later) c h =
      go (attempt_turn w c) refl (attempt_turn-case w c) (λ d. run-Follows w later d)
    where
      go :
          (end : TurnEnd V)
          → attempt_turn w c ≡ end
          → TurnCase (verdict (w.turn c.attempt c.route)) c end
          → ((d : ProxyContext V)
              → IsRouted d
              → Follows w later d (retries w.turn d.attempt d.route later) (run_attempts w later d))
          → Follows w
              (next ∷ later)
              c
              (retries w.turn c.attempt c.route (next ∷ later))
              (run_attempts w (next ∷ later) c)
      go (settled e d) same (settles v k) ih =
          rw (run-settled w (next ∷ later) c d e same)
            (rw v (stops w (next ∷ later) c d e (ap (λ p. p.1) v) k.0 k.2 (counted c d h k)))
      go (failed kind b d) same (fails v k) ih =
          let t = w.turn c.attempt c.route in
          let retried = record_retry w t b kind next d in
          let rest : Follows w later retried (retries w.turn (c.attempt + 1) next later)
              (run_attempts w later retried) =
            subst
              (λ a.
                Follows w later retried (retries w.turn (a + 1) next later)
                  (run_attempts w later retried))
              k.0 (ih retried refl) in
          rw (run-failed w next later c d kind b same) (
            rw v (elim (Bool-cases (is_retryable kind)) [
              | inl again ↦ rw again (
                  goes_on w next later c retried _ _ (omega (arith, k.0)) refl
                    (retried-one w c d t b kind next k.2) (counted c d h k) rest)
              | inr final ↦ rw final (
                  stops w (next ∷ later) c _ (refused (api_error kind)) (ap (λ p. p.1) v) k.0 k.2
                    (counted c d h k))
            ]))
