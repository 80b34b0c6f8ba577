-- ===== src/Proxy/Routing/Select/Errors.antt =====
-- The error that `select` answers where a model's route offers nothing.
use onair.Prelude.{
  ℕ, ◌≡◌, refl, sym, subst, ◌∙◌, ◌↔◌, ◌⊎◌, inl, inr, String, Bool, true, false, List, [], ◌∷◌,
  Option, none, some, Elem, any_iff, Bool-cases, Option-cases, arith,
}
use onair.Core.Error.{ApiError, err, bad_request, endpoint_unavailable}
use onair.Core.Config.Types.{ResolvedBackend, ResolvedRoute, RouteBackendBinding}
use onair.Core.Config.Routes.{find_backend}
use onair.Proxy.Routing.Modes.{RequestMode, has_capability, supports_tools}
use onair.Proxy.Routing.Strategy.{RoundRobinCounters}
use onair.Proxy.Routing.Select.{
  SelectedRoute, SelectionRequest, public_route, select, finish_selection, rotated, no_candidate,
  is_eligible, check_tools, mode_of, candidate, try_backend, try_binding,
}
use onair.Proxy.Routing.Select.Collect.{collect-flag}
use onair.Proxy.Routing.Select.Candidates.{IsOffered, try_binding-IsRound, Elem-collect_bindings}
use onair.Proxy.Routing.Select.Offers.{bound_candidates, select-routed}

module _ {V : Type 0} where
  -- A binding whose backend would serve the request, were it not for the tools of the request.
  pub record LacksTools (request : SelectionRequest V) (route : ResolvedRoute V) : Type 0 where
    pub binding : RouteBackendBinding
    pub bound : Elem binding route.backends
    pub backend : ResolvedBackend V
    pub found : find_backend binding.backend_id request.backends ≡ some backend
    pub streams : request.stream ≡ true → has_capability backend.supports "streaming" ≡ true
    pub mode : RequestMode
    pub in_mode : mode_of request backend (some route) ≡ some mode
    pub has_tools : request.tools ≡ true
    pub lacking : supports_tools backend.supports (some route.expose) ≡ false

  try_binding-flag_iff :
      (request : SelectionRequest V) (route : ResolvedRoute V) (model : String)
      → ((b : RouteBackendBinding) × Elem b route.backends
          × ((try_binding request route model b false).1 ≡ true))
        ↔ LacksTools request route
  unfolding try_binding try_backend candidate is_eligible check_tools
  try_binding-flag_iff request route model = (
    λ (b, m, e). to b m (find_backend b.backend_id request.backends) refl e,
    λ l. (
      l.binding,
      l.bound,
      rw l.found (ground (arith, l.streams, l.in_mode, l.has_tools, l.lacking)),
    ),
  )
    where
      to :
          (b : RouteBackendBinding)
          → Elem b route.backends
          → (o : Option (ResolvedBackend V)) → find_backend b.backend_id request.backends ≡ o
          → (try_backend request route model b o false).1 ≡ true
          → LacksTools request route
      to b m none found e = cc e
      to b m (some backend) found e = elim (Option-cases (mode_of request backend (some route))) [
        | inl n ↦ absurd (ground arith)
        | inr (mode, in_mode) ↦ record {
          binding = b;
          bound = m;
          backend = backend;
          found = found;
          streams = λ s. ground arith;
          mode = mode;
          in_mode = in_mode;
          has_tools = ground arith;
          lacking = ground arith;
        }
      ]

  bound_candidates-flag_iff :
      (request : SelectionRequest V) (route : ResolvedRoute V) (model : String)
      → ((bound_candidates request route model).1 ≡ true) ↔ LacksTools request route
  unfolding bound_candidates
  bound_candidates-flag_iff request route model =
      let step = try_binding request route model in
      let flag = collect-flag step (try_binding-IsRound request route model) route.backends false in
      let some_round = any_iff (λ b. (step b false).1) route.backends in
      let lacking = try_binding-flag_iff request route model in
      (λ e. lacking.0 (some_round.0 (sym flag ∙ e)), λ l. flag ∙ some_round.1 (lacking.1 l))

  finish_selection-error :
      (request : SelectionRequest V) (counters : RoundRobinCounters) (draw : ℕ → ℕ)
      (cs : List (SelectedRoute V)) (flag : Bool) {e : ApiError}
      → (finish_selection request counters draw cs flag).0 ≡ err e
      → (cs ≡ []) × (no_candidate request flag ≡ e)
  unfolding finish_selection rotated
  finish_selection-error request counters draw [] flag failed = (refl, cc failed)
  finish_selection-error request counters draw (first ∷ rest) flag failed = cc failed

  -- Where a selection for a model that has a route fails, no binding of the route offers a
  -- candidate. The error is the one about tool calling exactly if some binding's backend would
  -- have served the request without its tools, and otherwise says that the endpoint is unavailable.
  pub select-error :
      (request : SelectionRequest V) (counters : RoundRobinCounters) (draw : ℕ → ℕ)
      (route : ResolvedRoute V) (model : String) (e : ApiError)
      → request.model ≡ some model
      → public_route request model ≡ some route
      → (select request counters draw).0 ≡ err e
      → ((c : SelectedRoute V) → ¬ IsOffered request route model c)
        × ((LacksTools request route
              × (e
                  ≡ bad_request "The selected model does not support tool calling." (some "tools")))
            ⊎ ((¬ LacksTools request route) × (e ≡ endpoint_unavailable request.path (some model))))
  unfolding bound_candidates no_candidate
  select-error request counters draw route model e has_model has_route failed =
      let flag = (bound_candidates request route model).1 in
      let (none_left, answer) =
        finish_selection-error request counters draw (bound_candidates request route model).0 flag
          (rw (select-routed request counters draw route model has_model has_route) at failed) in
      let lacking = bound_candidates-flag_iff request route model in
      (
        λ c offered. nothing (
            subst (λ cs. Elem c cs) none_left
              ((Elem-collect_bindings request route model c).1 offered)),
        elim (Bool-cases flag) [
          | inl t ↦ let l = lacking.0 t in inl (l, sym answer ∙ rw t (rw l.has_tools refl))
          | inr f ↦
              inr
                (λ l. ground (arith, lacking.1 l), sym answer ∙ rw f (rw has_model (ground arith)))
        ],
      )
    where
      nothing : {c : SelectedRoute V} → ¬ Elem c []
      nothing m = elim m [ ]
