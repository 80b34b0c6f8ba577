-- ===== src/Proxy/Routing/Select/Order.antt =====
-- The strategies differ in where the attempts start, and in nothing else.
use onair.Prelude.{
  ℕ, ◌<◌, ◌≡◌, refl, sym, subst, ◌∙◌, String, Option, none, some, length, append-nil, arith,
}
use onair.Core.Error.{ok, err}
use onair.Core.Config.Types.{RoutingStrategy, priority}
use onair.Proxy.Routing.Strategy.{RoundRobinCounters, rotate_left}
use onair.Proxy.Routing.Select.{
  SelectedRoute, SelectionRequest, NonEmptyVec, to_vec, Found, select, select_found, gather,
  rotation, model_candidates, try_binding, try_backend, try_any, candidate, is_eligible, mode_of,
}
use onair.Proxy.Routing.Select.Offers.{finish_selection-rotates, rotation-below}

module _ {V : Type 0} where
  abbrev pub with_strategy : RoutingStrategy → SelectionRequest V → SelectionRequest V
  with_strategy strategy request = record {
    backends = request.backends;
    routes = request.routes;
    strategy = strategy;
    path = request.path;
    model = request.model;
    stream = request.stream;
    tools = request.tools;
    sticky_key = request.sticky_key;
  }

  gather-with_strategy :
      (s : RoutingStrategy) (request : SelectionRequest V) (model : Option String)
      → gather (with_strategy s request) model ≡ gather request model
  unfolding gather model_candidates try_binding try_backend try_any candidate is_eligible mode_of
  gather-with_strategy s request (some model) = refl
  gather-with_strategy s request none = refl

  found_rotates :
      (s : RoutingStrategy) (request : SelectionRequest V) (counters : RoundRobinCounters)
      (draw : ℕ → ℕ) (found : Found V) {v w : NonEmptyVec (SelectedRoute V)}
      → (select_found (with_strategy s request) counters draw found).0 ≡ ok v
      → (select_found (with_strategy priority request) counters draw found).0 ≡ ok w
      → (i : ℕ) × (i < length (to_vec w)) × (to_vec v ≡ rotate_left i (to_vec w))
  unfolding select_found rotation
  found_rotates s request counters draw (err e) left right = cc left
  found_rotates s request counters draw (ok (cs, flag)) {v} {w} left right =
      let a = finish_selection-rotates (with_strategy s request) counters draw cs flag left in
      let b =
        finish_selection-rotates (with_strategy priority request) counters draw cs flag right in
      let whole : cs ≡ to_vec w = sym (append-nil cs) ∙ sym b in
      let i = (rotation (with_strategy s request) counters draw s cs).0 in
      (
        i,
        subst (λ l. i < length l) whole
            (rotation-below (with_strategy s request) counters draw s cs (rw whole (omega arith))),
        subst (λ l. to_vec v ≡ rotate_left i l) whole a,
      )

  -- Where a request is served, with a model or without, the attempts under any strategy are those
  -- of the priority strategy rotated left by less than their number: a strategy neither drops,
  -- adds nor reorders candidates otherwise.
  pub select-rotates :
      (s : RoutingStrategy) (request : SelectionRequest V) (counters : RoundRobinCounters)
      (draw : ℕ → ℕ) (v w : NonEmptyVec (SelectedRoute V))
      → (select (with_strategy s request) counters draw).0 ≡ ok v
      → (select (with_strategy priority request) counters draw).0 ≡ ok w
      → (i : ℕ) × (i < length (to_vec w)) × (to_vec v ≡ rotate_left i (to_vec w))
  unfolding select
  select-rotates s request counters draw v w left right =
      found_rotates s request counters draw (gather request request.model)
        (rw (gather-with_strategy s request request.model) at left)
        (rw (gather-with_strategy priority request request.model) at right)
