-- ===== src/Proxy/Attempts/Run/Untouched.antt =====
-- That the attempts leave the health of the other backends alone.
use onair.Prelude.{
  ◌≡◌, refl, ap, ◌∙◌, Bool, false, String, ◌==◌, List, [], ◌∷◌, get, get-put, any, if_cases, arith,
}
use onair.Observe.Health.{record_failure}
use onair.Proxy.Routing.Select.{SelectedRoute}
use onair.Proxy.Attempts.Failure.{FailureKind, is_retryable}
use onair.Proxy.Attempts.Builder.{InspectorAttemptBuilder}
use onair.Proxy.Attempts.Context.{
  ProxyContext, World, Turn, record_retry, record_final_failure, record_retried_attempt,
  apply_route, record_context_inspector,
}
use onair.Proxy.Attempts.Run.{
  TurnEnd, LoopEnd, run_attempts, attempt_turn, give_up, settled, failed,
}
use onair.Proxy.Attempts.Run.Trail.{
  IsRouted, Kept, TurnCase, settles, fails, verdict, attempt_turn-case, run-settled,
  run-failed_last, run-failed,
}

module _ {V : Type 0} where
  abbrev pub is_candidate : String → List (SelectedRoute V) → Bool
  is_candidate id routes = any (λ (r : SelectedRoute V). r.backend_id == id) routes

  give_up-health :
      (w : World V) (t : Turn) (kind : FailureKind) (b : InspectorAttemptBuilder)
      (c d : ProxyContext V) (id : String)
      → IsRouted c
      → Kept c d
      → c.route.backend_id == id ≡ false
      → get (give_up w t kind b d).1.health id ≡ get c.health id
  unfolding give_up record_final_failure record_context_inspector record_failure
  give_up-health w t kind b c d id h k other =
      get-put d.labels.backend id _ d.health ∙ rw (k.4, h, other) (ap (λ m. get m id) k.3)

  retry-health :
      (w : World V) (t : Turn) (kind : FailureKind) (b : InspectorAttemptBuilder)
      (next : SelectedRoute V) (c d : ProxyContext V) (id : String)
      → IsRouted c
      → Kept c d
      → c.route.backend_id == id ≡ false
      → get (record_retry w t b kind next d).health id ≡ get c.health id
  unfolding record_retry record_retried_attempt apply_route record_failure
  retry-health w t kind b next c d id h k other =
      get-put d.labels.backend id _ d.health ∙ rw (k.4, h, other) (ap (λ m. get m id) k.3)

  -- A backend that is neither the route's nor a fallback's has the health that it had.
  pub run_attempts-leaves :
      (w : World V) (fallback : List (SelectedRoute V)) (c : ProxyContext V) (id : String)
      → IsRouted c
      → is_candidate id (c.route ∷ fallback) ≡ false
      → get (run_attempts w fallback c).1.health id ≡ get c.health id
  unfolding record_retry record_retried_attempt apply_route
  run_attempts-leaves w [] c id h other = go (attempt_turn w c) refl (attempt_turn-case w c)
    where
      go :
          (end : TurnEnd V)
          → attempt_turn w c ≡ end
          → TurnCase (verdict (w.turn c.attempt c.route)) c end
          → get (run_attempts w [] c).1.health id ≡ get c.health id
      go (settled e d) same (settles v k) =
          rw (run-settled w [] c d e same) (ap (λ m. get m id) k.3)
      go (failed kind b d) same (fails v k) =
          rw (run-failed_last w c d kind b same)
            (give_up-health w _ kind b c d id h k (ground arith))
  run_attempts-leaves w (next ∷ later) c id h other =
      go (attempt_turn w c) refl (attempt_turn-case w c) (λ d. run_attempts-leaves w later d id)
    where
      go :
          (end : TurnEnd V)
          → attempt_turn w c ≡ end
          → TurnCase (verdict (w.turn c.attempt c.route)) c end
          → ((d : ProxyContext V)
              → IsRouted d
              → is_candidate id (d.route ∷ later) ≡ false
              → get (run_attempts w later d).1.health id ≡ get d.health id)
          → get (run_attempts w (next ∷ later) c).1.health id ≡ get c.health id
      go (settled e d) same (settles v k) ih =
          rw (run-settled w (next ∷ later) c d e same) (ap (λ m. get m id) k.3)
      go (failed kind b d) same (fails v k) ih =
          let t = w.turn c.attempt c.route in
          let first : c.route.backend_id == id ≡ false = ground arith in
          rw (run-failed w next later c d kind b same) (
            if_cases (λ (q : LoopEnd × ProxyContext V). get q.1.health id ≡ get c.health id)
              (is_retryable kind)
              (λ again.
                ih (record_retry w t b kind next d) refl (ground arith)
                ∙ retry-health w t kind b next c d id h k first)
              (λ final. give_up-health w t kind b c d id h k first))
