-- ===== src/Core/Config/Routes/Bindings.antt =====
-- The backends that a resolved route is bound to, and the keys of the routes, from config.rs.
use onair.Prelude.{
  String, ◌≡◌, refl, ap, true, false, List, [], ◌∷◌, some, arith, eq_iff, All, map, any, find-Elem,
  is_some, StringMap, get, merge, get-merge, HasDistinctKeys, or_else,
}
use onair.Core.Config.Types.{
  ResolvedBackend, ResolvedRoute, RouteBackendBinding, RouteConfig, RouteKey, RoutingConfig,
}
use onair.Core.Config.Result.{Ensures, Ensures-ok, Ensures-then, Ensures-bind, ok_or-eq-ok}
use onair.Core.Config.Secrets.{Host}
use onair.Core.Config.Routes.{
  find_backend, bind_routes, eq_key, routes_from, resolved_from, resolve_routes, validate_routes,
  merge_extra_body, first_backend, backend_extra_body,
}

module _ {V : Type 0} where
  -- The binding names a backend of the configuration.
  abbrev pub IsBound : List (ResolvedBackend V) → RouteBackendBinding → Type 0
  IsBound backends b = is_some (find_backend b.backend_id backends) ≡ true

  find_backend_self :
      (id : String) (backends : List (ResolvedBackend V)) (b : ResolvedBackend V)
      → find_backend id backends ≡ some b
      → is_some (find_backend b.id backends) ≡ true
  find_backend_self id backends b h =
      let same : b.id ≡ id = (eq_iff b.id id).0 (find-Elem _ backends h).1 in rw (same, h)

  bind_routes-Ensures :
      (key : RouteKey) (entries : List String) (backends : List (ResolvedBackend V))
      → Ensures (λ l. All (IsBound backends) l) (bind_routes key entries backends)
  unfolding bind_routes
  bind_routes-Ensures key [] backends = Ensures-ok tt
  bind_routes-Ensures key (entry ∷ entries) backends = Ensures-bind _ _ λ parsed _.
      Ensures-bind _ _ λ backend found. Ensures-bind _ _ λ bindings e. Ensures-ok (
        find_backend_self parsed.1 backends backend (ok_or-eq-ok _ _ found),
        (bind_routes-Ensures key entries backends).at bindings e,
      )

-- No two routes have one key.
abbrev pub HasDistinctRoutes : List RouteKey → Type 0
HasDistinctRoutes [] = Unit
HasDistinctRoutes (k ∷ ks) = All (λ j. eq_key j k ≡ false) ks × HasDistinctRoutes ks

abbrev Unseen : List RouteKey → List RouteKey → Type 0
Unseen seen ks = All (λ k. any (eq_key k) seen ≡ false) ks

Unseen-cons :
    (key : RouteKey) (seen ks : List RouteKey)
    → Unseen (key ∷ seen) ks
    → All (λ k. eq_key k key ≡ false) ks × Unseen seen ks
Unseen-cons key seen [] h = (tt, tt)
Unseen-cons key seen (k ∷ ks) (h, hs) =
    let (here, there) = Unseen-cons key seen ks hs in ((ground arith, here), (ground arith, there))

module _ {V : Type 0} where
  abbrev keys : List (RouteKey × RouteConfig V) → List RouteKey
  keys l = map (λ (p : RouteKey × RouteConfig V). p.0) l

  routes_from-Ensures :
      (host : Host) (config : RoutingConfig) (seen : List RouteKey) (raw : List (RouteConfig V))
      → Ensures
          (λ l. HasDistinctRoutes (keys l) × Unseen seen (keys l))
          (routes_from host config seen raw)
  unfolding routes_from
  routes_from-Ensures host config seen [] = Ensures-ok (tt, tt)
  routes_from-Ensures host config seen (route ∷ raw) = Ensures-bind _ _ λ key _.
      Ensures-then _ _ _ λ fresh. Ensures-bind _ _ λ _ _. Ensures-bind _ _ λ _ _.
        Ensures-bind _ _ λ validated e.
          let (distinct, unseen) =
            (routes_from-Ensures host config (key ∷ seen) raw).at validated e in
          let (others, older) = Unseen-cons key seen (keys validated) unseen in
          Ensures-ok ((others, distinct), (fresh, older))

  -- The resolved routes keep the keys, in order, and every one is bound to known backends.
  resolved_from-Ensures :
      (backends : List (ResolvedBackend V)) (l : List (RouteKey × RouteConfig V))
      → Ensures
          (λ routes.
            (map (λ (r : ResolvedRoute V). r.key) routes ≡ keys l)
            × All (λ (r : ResolvedRoute V). All (IsBound backends) r.backends) routes)
          (resolved_from backends l)
  unfolding resolved_from
  resolved_from-Ensures backends [] = Ensures-ok (refl, tt)
  resolved_from-Ensures backends ((key, route) ∷ rest) = Ensures-bind _ _ λ bindings bound.
      Ensures-bind _ _ λ routes e.
        let (same, all) = (resolved_from-Ensures backends rest).at routes e in
        Ensures-ok (
          ap (λ (ks : List RouteKey). key ∷ ks) same,
          ((bind_routes-Ensures key route.backends backends).at bindings bound, all),
        )

  -- The keys of the routes are distinct, and every binding names a backend.
  abbrev pub IsSound : List (ResolvedBackend V) → List (ResolvedRoute V) → Type 0
  IsSound backends routes =
      HasDistinctRoutes (map (λ (r : ResolvedRoute V). r.key) routes)
      × All (λ (r : ResolvedRoute V). All (IsBound backends) r.backends) routes

  pub resolve_routes-IsSound :
      (host : Host) (raw : List (RouteConfig V)) (backends : List (ResolvedBackend V))
      (config : RoutingConfig)
      → Ensures (IsSound backends) (resolve_routes host raw backends config)
  unfolding resolve_routes validate_routes
  resolve_routes-IsSound host raw backends config = Ensures-bind _ _ λ validated e. record {
    at = λ routes h.
        let (distinct, _) = (routes_from-Ensures host config [] raw).at validated e in
        let (same, bound) = (resolved_from-Ensures backends validated).at routes h in
        (rw same distinct, bound);
  }

-- The extra body of a route: its own value for a key wins, and a key that it leaves out takes the
-- value of the first binding's backend.
pub get-merge_extra_body :
    {V : Type 0} (bindings : List RouteBackendBinding) (backends : List (ResolvedBackend V))
    (own : StringMap V) (key : String)
    → HasDistinctKeys own
    → HasDistinctKeys (backend_extra_body (first_backend bindings backends))
    → get (merge_extra_body bindings backends own) key
      ≡ or_else (get own key) (get (backend_extra_body (first_backend bindings backends)) key)
unfolding merge_extra_body
get-merge_extra_body bindings backends own key h k =
    let base = backend_extra_body (first_backend bindings backends) in
    ground (arith, get-merge key (merge [] base) own h, get-merge key [] base k)
