-- ===== src/Proxy/Routing/Select/Configured.antt =====
-- Selection over a resolved configuration: what config.rs checks is what routing.rs relies on.
use onair.Prelude.{
  ◌<◌, ◌≡◌, refl, sym, inl, inr, String, Bool, true, List, [], ◌∷◌, some, Elem, All-Elem, any, find,
  find-Elem, Bool-cases,
}
use onair.Core.Config.Types.{ConfigFile, Config, ResolvedClient, ResolvedRoute}
use onair.Core.Config.Result
use onair.Core.Config.Secrets.{Host}
use onair.Core.Config.Secrets.Backends.{IsUsable}
use onair.Core.Config.Resolve.{resolve}
use onair.Core.Config.Resolve.Validity.{IsValid, resolve-IsValid}
use onair.Proxy.Routing.Select.{SelectedRoute, SelectionRequest, public_route, build_candidate}
use onair.Proxy.Routing.Select.Candidates.{IsOffered}

find-any :
    {A : Type 0} (p : A → Bool) (xs : List A) → any p xs ≡ true → (x : A) × (find p xs ≡ some x)
find-any p [] h = cc h
find-any p (x ∷ xs) h = elim (Bool-cases (p x)) [
  | inl t ↦ (x, rw t refl)
  | inr f ↦ let (y, e) = find-any p xs (rw f at h) in (y, rw f e)
]

-- Under a configuration that `resolve` accepts, a request over its backends and routes finds a
-- public route for every model that a client may name, and every candidate that this route offers
-- has a positive weight.
pub configured-IsRoutable :
    {V : Type 0} (host : Host) (file : ConfigFile V) (config : Config V) (client : ResolvedClient)
    (model : String) (request : SelectionRequest V)
    → resolve host file ≡ Result.ok config
    → Elem client config.clients
    → Elem model client.models
    → request.backends ≡ config.backends
    → request.routes ≡ config.routes
    → (route : ResolvedRoute V) × (public_route request model ≡ some route)
      × ((c : SelectedRoute V) → IsOffered request route model c → 0 < c.weight)
unfolding build_candidate
configured-IsRoutable {V} host file config client model request resolved of_config of_client
      backends routes =
    let valid : IsValid config = resolve-IsValid host file config resolved in
    let routable = All-Elem _ (All-Elem _ valid.routable of_config) of_client in
    let (route, found) = find-any _ config.routes routable in
    (
      route,
      rw routes found,
      λ c offered.
          let usable : IsUsable offered.backend =
            All-Elem _ valid.backends.1
              (find-Elem _ config.backends (rw backends at offered.found)).0 in
          rw (sym offered.built) usable.0,
    )
