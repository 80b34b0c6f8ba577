-- ===== src/Proxy/Routing/Select/Candidates.antt =====
-- Which backends a request is offered, and the error where there are none.
use onair.Prelude.{
  ◌≡◌, refl, ap, ◌↔◌, String, Bool, true, false, ◌||◌, Option, none, some, Elem, map_option-some,
  arith,
}
use onair.Core.Config.Types.{ResolvedBackend, ResolvedRoute, RouteBackendBinding}
use onair.Core.Config.Routes.{find_backend}
use onair.Proxy.Routing.Modes.{RequestMode, has_capability, supports_tools}
use onair.Proxy.Routing.Select.{
  SelectedRoute, SelectionRequest, is_eligible, check_tools, mode_of, candidate, try_backend,
  try_binding, build_candidate, route_expose, collect,
}
use onair.Proxy.Routing.Select.Collect.{IsRound, Elem-collect}

module _ {V : Type 0} where
  -- What a backend needs to serve a request on a route in a mode.
  pub record CanServe (request : SelectionRequest V) (backend : ResolvedBackend V)
      (route : Option (ResolvedRoute V)) (mode : RequestMode) : Type 0 where
    pub streams : request.stream ≡ true → has_capability backend.supports "streaming" ≡ true
    pub in_mode : mode_of request backend route ≡ some mode
    pub calls_tools :
        request.tools ≡ true → supports_tools backend.supports (route_expose route) ≡ true

  is_eligible_iff :
      (request : SelectionRequest V) (backend : ResolvedBackend V)
      (route : Option (ResolvedRoute V)) (flag : Bool) (mode : RequestMode)
      → ((is_eligible request backend route flag).0 ≡ some mode)
        ↔ CanServe request backend route mode
  unfolding is_eligible check_tools
  is_eligible_iff request backend route flag mode = (
    λ e. record {
      streams = λ s. ground arith;
      in_mode = ground arith;
      calls_tools = λ t. ground arith;
    },
    λ serves. ground (arith, serves.streams, serves.in_mode, serves.calls_tools),
  )

  is_eligible-result :
      (request : SelectionRequest V) (backend : ResolvedBackend V)
      (route : Option (ResolvedRoute V)) (flag : Bool)
      → (is_eligible request backend route flag).0 ≡ (is_eligible request backend route false).0
  unfolding is_eligible check_tools
  is_eligible-result request backend route flag = ground arith

  is_eligible-flags :
      (request : SelectionRequest V) (backend : ResolvedBackend V)
      (route : Option (ResolvedRoute V)) (flag : Bool)
      → (is_eligible request backend route flag).1
        ≡ flag || (is_eligible request backend route false).1
  unfolding is_eligible check_tools
  is_eligible-flags request backend route flag = ground arith

  -- A binding of the route whose backend can serve the request, and the candidate made of it.
  pub record IsOffered (request : SelectionRequest V) (route : ResolvedRoute V) (model : String)
      (c : SelectedRoute V) : Type 0 where
    pub binding : RouteBackendBinding
    pub bound : Elem binding route.backends
    pub backend : ResolvedBackend V
    pub found : find_backend binding.backend_id request.backends ≡ some backend
    pub mode : RequestMode
    pub serves : CanServe request backend (some route) mode
    pub built : build_candidate backend (some route) (some binding) (some model) mode ≡ c

  pub try_binding-IsRound :
      (request : SelectionRequest V) (route : ResolvedRoute V) (model : String)
      → IsRound (try_binding request route model)
  unfolding try_binding try_backend candidate
  try_binding-IsRound request route model = record {
    result = λ b flag. result b (find_backend b.backend_id request.backends) flag;
    flags = λ b flag. flags b (find_backend b.backend_id request.backends) flag;
  }
    where
      result :
          (b : RouteBackendBinding) (o : Option (ResolvedBackend V)) (flag : Bool)
          → (try_backend request route model b o flag).0
            ≡ (try_backend request route model b o false).0
      result b none flag = refl
      result b (some backend) flag = rw (is_eligible-result request backend (some route) flag) refl

      flags :
          (b : RouteBackendBinding) (o : Option (ResolvedBackend V)) (flag : Bool)
          → (try_backend request route model b o flag).1
            ≡ flag || (try_backend request route model b o false).1
      flags b none flag = ground arith
      flags b (some backend) flag = is_eligible-flags request backend (some route) flag

  -- A round over a binding pushes the candidate that it offers, and nothing else.
  try_binding_iff :
      (request : SelectionRequest V) (route : ResolvedRoute V) (model : String)
      (c : SelectedRoute V)
      → ((b : RouteBackendBinding) × Elem b route.backends
          × ((try_binding request route model b false).0 ≡ some c))
        ↔ IsOffered request route model c
  unfolding try_binding try_backend candidate
  try_binding_iff request route model c = (
    λ (b, m, e). to b m (find_backend b.backend_id request.backends) refl e,
    λ o. (o.binding, o.bound, rw o.found (from o)),
  )
    where
      to :
          (b : RouteBackendBinding)
          → Elem b route.backends
          → (o : Option (ResolvedBackend V)) → find_backend b.backend_id request.backends ≡ o
          → (try_backend request route model b o false).0 ≡ some c
          → IsOffered request route model c
      to b m none found e = cc e
      to b m (some backend) found e =
          let (mode, eligible, built) =
            map_option-some (build_candidate backend (some route) (some b) (some model))
              (is_eligible request backend (some route) false).0 e in
          record {
            binding = b;
            bound = m;
            backend = backend;
            found = found;
            mode = mode;
            serves = (is_eligible_iff request backend (some route) false mode).0 eligible;
            built = built;
          }

      from :
          (o : IsOffered request route model c)
          → (try_backend request route model o.binding (some o.backend) false).0 ≡ some c
      from o =
          rw ((is_eligible_iff request o.backend (some route) false o.mode).1 o.serves)
            (ap some o.built)

  -- The candidates of a public route are the ones that its bindings offer.
  pub Elem-collect_bindings :
      (request : SelectionRequest V) (route : ResolvedRoute V) (model : String)
      (c : SelectedRoute V)
      → Elem c (collect (try_binding request route model) route.backends false).0
        ↔ IsOffered request route model c
  Elem-collect_bindings request route model c =
      let loop =
        Elem-collect (try_binding request route model) (try_binding-IsRound request route model)
          route.backends false in
      let rounds = try_binding_iff request route model c in
      (λ m. rounds.0 (loop.0 m), λ o. loop.1 (rounds.1 o))
