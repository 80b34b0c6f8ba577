-- ===== src/Proxy/Routing/Select/Offers.antt =====
-- What `select` answers: the offered candidates, rotated by the strategy, or the error.
use onair.Prelude.{
  ℕ, suc, ◌<◌, ◌≡◌, refl, sym, ap, ◌∙◌, ◌↔◌, String, Bool, false, List, [], ◌∷◌, map, some, length,
  Elem, unwrap_or, arith,
}
use onair.Core.Error.{ok}
use onair.Core.Config.Types.{
  ResolvedRoute, RoutingStrategy, priority, sticky, round_robin, weighted_random,
}
use onair.Proxy.Routing.Strategy.{RoundRobinCounters, rotate_left}
use onair.Proxy.Routing.Strategy.Rotation.{
  length-rotate_left, Elem-rotate_left, sticky_index-below, next_index-below,
  weighted_rotation-below,
}
use onair.Proxy.Routing.Select.{
  SelectedRoute, SelectionRequest, NonEmptyVec, from_vec, to_vec, public_route, select,
  select_found, finish_selection, gather, model_candidates, rotated, rotation, or_unrotated,
  collect, try_binding,
}
use onair.Proxy.Routing.Select.Candidates.{IsOffered, Elem-collect_bindings}

module _ {V : Type 0} where
  length-map_weight :
      (cs : List (SelectedRoute V))
      → length (map (λ (c : SelectedRoute V). c.weight) cs) ≡ length cs
  length-map_weight [] = refl
  length-map_weight (c ∷ cs) = ap suc (length-map_weight cs)

  pub rotation-below :
      (request : SelectionRequest V) (counters : RoundRobinCounters) (draw : ℕ → ℕ)
      (strategy : RoutingStrategy) (cs : List (SelectedRoute V))
      → 0 < length cs
      → (rotation request counters draw strategy cs).0 < length cs
  unfolding rotation
  rotation-below request counters draw priority cs positive = positive
  rotation-below request counters draw sticky cs positive =
      sticky_index-below (unwrap_or request.sticky_key request.path) (length cs) positive
  rotation-below request counters draw round_robin cs positive =
      next_index-below counters (unwrap_or request.model request.path) (length cs) positive
  rotation-below request counters draw weighted_random cs positive =
      let e = length-map_weight cs in
      omega (
        arith,
        e,
        weighted_rotation-below draw (map (λ (c : SelectedRoute V). c.weight) cs)
            (omega (arith, e)),
      )

  to_vec-or_unrotated :
      (first : SelectedRoute V) (rest : List (SelectedRoute V)) (xs : List (SelectedRoute V))
      → 0 < length xs
      → to_vec (or_unrotated first rest (from_vec xs)) ≡ xs
  unfolding or_unrotated
  to_vec-or_unrotated first rest [] positive = elim positive [ ]
  to_vec-or_unrotated first rest (x ∷ xs) positive = refl

  -- A selection succeeds with a rotation of the candidates.
  pub finish_selection-rotates :
      (request : SelectionRequest V) (counters : RoundRobinCounters) (draw : ℕ → ℕ)
      (cs : List (SelectedRoute V)) (flag : Bool) {v : NonEmptyVec (SelectedRoute V)}
      → (finish_selection request counters draw cs flag).0 ≡ ok v
      → to_vec v ≡ rotate_left (rotation request counters draw request.strategy cs).0 cs
  unfolding finish_selection rotated
  finish_selection-rotates request counters draw [] flag e = cc e
  finish_selection-rotates request counters draw (first ∷ rest) flag {v} e =
      let cs = first ∷ rest in
      let i = (rotation request counters draw request.strategy cs).0 in
      let same : or_unrotated first rest (from_vec (rotate_left i cs)) ≡ v = cc e in
      ap to_vec (sym same)
      ∙ to_vec-or_unrotated first rest (rotate_left i cs) (omega (arith, length-rotate_left i cs))

  -- The loop over the bindings of the route that has the model.
  unfoldable pub bound_candidates :
      SelectionRequest V → ResolvedRoute V → String → List (SelectedRoute V) × Bool
  bound_candidates request route model =
      collect (try_binding request route model) route.backends false

  pub select-routed :
      (request : SelectionRequest V) (counters : RoundRobinCounters) (draw : ℕ → ℕ)
      (route : ResolvedRoute V) (model : String)
      → request.model ≡ some model
      → public_route request model ≡ some route
      → select request counters draw
        ≡ finish_selection request counters draw
            (bound_candidates request route model).0
            (bound_candidates request route model).1
  unfolding select select_found gather model_candidates bound_candidates
  select-routed request counters draw route model has_model has_route =
      rw has_model (rw has_route refl)

  -- A selection for a model that succeeds holds exactly the candidates that the model's route
  -- offers: one for each binding whose backend is configured, streams if the request does, takes
  -- the path in some request mode, and calls tools if the request has them.
  pub select-IsOffered :
      (request : SelectionRequest V) (counters : RoundRobinCounters) (draw : ℕ → ℕ)
      (route : ResolvedRoute V) (model : String) (v : NonEmptyVec (SelectedRoute V))
      → request.model ≡ some model
      → public_route request model ≡ some route
      → (select request counters draw).0 ≡ ok v
      → (c : SelectedRoute V) → Elem c (to_vec v) ↔ IsOffered request route model c
  unfolding bound_candidates
  select-IsOffered request counters draw route model v has_model has_route done c =
      let cs = (bound_candidates request route model).0 in
      let flag = (bound_candidates request route model).1 in
      let rotates =
        finish_selection-rotates request counters draw cs flag
          (rw (select-routed request counters draw route model has_model has_route) at done) in
      let same =
        Elem-rotate_left (rotation request counters draw request.strategy cs).0 cs {x = c} in
      let offers = Elem-collect_bindings request route model c in
      rw rotates (λ m. offers.0 (same.0 m), λ o. same.1 (offers.1 o))
