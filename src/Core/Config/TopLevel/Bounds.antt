-- ===== src/Core/Config/TopLevel/Bounds.antt =====
-- What the checks on single sections make sure of.
use Prim.Native.String.{[], ◌∷◌}
use text.Mathlib.TextLemmas.{nil-append, cons-append}
use text.Mathlib.TextEquality.{Char-path}
use onair.Prelude.{
  ap, subst, eqb, ◌≤◌, ◌<◌, ◌≡◌, ◌≢◌, refl, sym, String, Char, code, Bool, true, false, not, Option,
  none, some, ◌⊎◌, inl, inr, [], ◌∷◌, ◌+ˢ◌, Bool-cases, arith, any, any_iff, Elem, split,
  strip_prefix, is_some, is_empty, if_cases, ltb,
}
use onair.Core.Config.Types.{
  DebugCaptureConfig, InspectorConfig, HealthConfig, RoutingConfig, ConfigFile,
}
use onair.Core.Config.Result.{ok, Ensures, Ensures-ok, Ensures-then, Ensures-bind, fail_if-eq-ok}
use onair.Core.Config.TopLevel.{
  validate_top_level, validate_inspector_config, validate_routing_config, validate_health_config,
  validate_debug_capture_config, contains_text, any_control, check_persistence_path, is_normal,
  is_parent_dir,
}

-- A path below the base address of a backend.
pub record IsProbePath (path : String) : Type 0 where
  pub rooted : (rest : String) × (path ≡ "/" +ˢ rest)
  pub relative : (rest : String) → path ≢ "//" +ˢ rest
  pub no_scheme : (before after : String) → path ≢ before +ˢ ("://" +ˢ after)
  pub printable :
      (before after : String) (c : Char)
      → path ≡ before +ˢ (c ∷ after)
      → (32 ≤ code c) × ((code c < 127) ⊎ (159 < code c))

pub record IsCapturePath (directory : String) : Type 0 where
  pub stays : ¬ Elem ".." (split b'/' directory)
  pub named :
      (part : String) × Elem part (split b'/' directory)
      × (part ≢ "")
      × (part ≢ ".")
      × (part ≢ "..")

pub record HasBounds (capture : DebugCaptureConfig) (inspector : InspectorConfig)
    (health : HealthConfig) (routing : RoutingConfig) : Type 0 where
  pub capture_directory : capture.enabled ≡ true → IsCapturePath capture.directory
  pub some_records : 0 < inspector.retention_requests
  pub few_records : inspector.retention_requests ≤ 1000000
  pub persistence_path :
      inspector.persistence.enabled ≡ true
      → (path : String) × (inspector.persistence.path ≡ some path) × (path ≢ "")
  pub some_drain : 0 < inspector.persistence.drain_timeout_ms
  pub short_drain : inspector.persistence.drain_timeout_ms ≤ 60000
  pub probe_interval : 0 < health.interval_ms
  pub probe_timeout : 0 < health.timeout_ms
  pub probe_path : IsProbePath health.path
  pub few_fallbacks : routing.fallback_attempts ≤ 16

strip_prefix-append : (p s : String) → strip_prefix p (p +ˢ s) ≡ some s
strip_prefix-append [] s = rw nil-append refl
strip_prefix-append (c ∷ p) s = rw cons-append (ground (arith, strip_prefix-append p s))

strip_prefix-found :
    (p s : String) → is_some (strip_prefix p s) ≡ true → (rest : String) × (s ≡ p +ˢ rest)
strip_prefix-found [] s h = (s, sym (nil-append s))
strip_prefix-found (a ∷ p) [] h = cc h
strip_prefix-found (a ∷ p) (b ∷ s) h = elim (Bool-cases (eqb (code a) (code b))) [
  | inl t ↦
      let (rest, e) = strip_prefix-found p s (ground (arith, h)) in
      let same : a ≡ b = Char-path a b (ground arith) in
      (rest, rw (sym same) (rw e (sym (cons-append a p rest))))
  | inr f ↦ absurd (ground arith)
]

contains_text-prefix : (p s : String) → is_some (strip_prefix p s) ≡ true → contains_text p s ≡ true
unfolding contains_text
contains_text-prefix p [] h = h
contains_text-prefix p (c ∷ s) h = rw h refl

contains_text-append : (p before after : String) → contains_text p (before +ˢ (p +ˢ after)) ≡ true
unfolding contains_text
contains_text-append p [] after =
    rw nil-append (contains_text-prefix p (p +ˢ after) (rw (strip_prefix-append p after) refl))
contains_text-append p (c ∷ before) after =
    rw cons-append (ground (arith, contains_text-append p before after))

any_control-found :
    (before after : String) (c : Char)
    → any_control (before +ˢ (c ∷ after)) ≡ false
    → (32 ≤ code c) × ((code c < 127) ⊎ (159 < code c))
unfolding any_control
any_control-found [] after c h =
    let clear : any_control (c ∷ after) ≡ false =
      subst (λ (t : String). any_control t ≡ false) (nil-append (c ∷ after)) h in
    elim (Bool-cases (ltb (code c) 127)) [
      | inl t ↦ (ground arith, inl (ground arith))
      | inr f ↦ (ground arith, inr (ground arith))
    ]
any_control-found (d ∷ before) after c h =
    let clear : any_control (d ∷ (before +ˢ (c ∷ after))) ≡ false =
      subst (λ (t : String). any_control t ≡ false) (cons-append d before (c ∷ after)) h in
    any_control-found before after c (ground arith)

probe_path :
    (config : HealthConfig)
    → Ensures
        (λ _. (0 < config.interval_ms) × (0 < config.timeout_ms) × IsProbePath config.path)
        (validate_health_config config)
unfolding validate_health_config
probe_path config = Ensures-then _ _ _ λ interval. Ensures-then _ _ _ λ timeout.
    Ensures-then _ _ _ λ rooted. Ensures-then _ _ _ λ relative. record {
      at = λ u h.
          let control : any_control config.path ≡ false = fail_if-eq-ok _ _ h in
          (
            ground arith,
            ground arith,
            record {
              rooted = strip_prefix-found "/" config.path (ground arith);
              relative = λ rest e.
                  let found : is_some (strip_prefix "//" config.path) ≡ true =
                    rw e (rw (strip_prefix-append "//" rest) refl) in
                  ground arith;
              no_scheme = λ before after e.
                  let found : contains_text "://" config.path ≡ true =
                    rw e (contains_text-append "://" before after) in
                  ground arith;
              printable = λ before after c e.
                  any_control-found before after c
                    (subst (λ (t : String). any_control t ≡ false) e control);
            },
          );
    }

persistence-named :
    (enabled : Bool) (path : Option String) {u : Unit {0}}
    → check_persistence_path enabled path ≡ ok u
    → enabled ≡ true
    → (p : String) × (path ≡ some p) × (p ≢ "")
unfolding check_persistence_path
persistence-named false path h e = cc e
persistence-named true none h e = cc h
persistence-named true (some p) h e = (p, refl, λ same. cc (fail_if-eq-ok _ _ h, ap is_empty same))

inspector-bounds :
    (config : InspectorConfig)
    → Ensures
        (λ _.
          (0 < config.retention_requests)
          × (config.retention_requests ≤ 1000000)
          × (config.persistence.enabled ≡ true
              → (path : String) × (config.persistence.path ≡ some path) × (path ≢ ""))
          × (0 < config.persistence.drain_timeout_ms)
          × (config.persistence.drain_timeout_ms ≤ 60000))
        (validate_inspector_config config)
unfolding validate_inspector_config
inspector-bounds config = Ensures-then _ _ _ λ some_records. Ensures-then _ _ _ λ few_records.
    Ensures-bind _ _ λ u path. Ensures-then _ _ _ λ some_time. record {
      at = λ v h.
          let short = fail_if-eq-ok _ _ h in
          (
            ground arith,
            ground arith,
            persistence-named config.persistence.enabled config.persistence.path path,
            ground arith,
            ground arith,
          );
    }

normal_part : (part : String) → is_normal part ≡ true → (part ≢ "") × (part ≢ ".") × (part ≢ "..")
unfolding is_normal
normal_part part t = (
  λ e. ground (arith, t, ap is_normal e),
  λ e. ground (arith, t, ap is_normal e),
  λ e. ground (arith, t, ap is_normal e),
)

capture-named :
    (config : DebugCaptureConfig)
    → Ensures
        (λ _. config.enabled ≡ true → IsCapturePath config.directory)
        (validate_debug_capture_config config)
unfolding validate_debug_capture_config is_parent_dir
capture-named config =
    if_cases (Ensures (λ _. config.enabled ≡ true → IsCapturePath config.directory))
      (not config.enabled) (λ off. Ensures-ok (λ on. absurd (ground arith)))
      (λ on. Ensures-then _ _ _ λ some_text. Ensures-then _ _ _ λ no_parent. record {
        at = λ u h e.
            let parts = split b'/' config.directory in
            let named : any is_normal parts ≡ true =
              ground (arith, fail_if-eq-ok (not (any is_normal parts)) _ h) in
            let (part, m, t) = (any_iff is_normal parts).0 named in
            let (some_name, no_dot, no_dots) = normal_part part t in
            record {
              stays = λ parent.
                  let found : any is_parent_dir parts ≡ true =
                    (any_iff is_parent_dir parts).1 ("..", parent, refl) in
                  cc (found, no_parent);
              named = (part, m, some_name, no_dot, no_dots);
            };
      })

module _ {V : Type 0} where
  pub top_level-HasBounds :
      (file : ConfigFile V)
      → Ensures
          (λ _. HasBounds file.debug_capture file.inspector file.health file.routing)
          (validate_top_level file)
  unfolding validate_top_level
  top_level-HasBounds file = Ensures-bind _ _ λ u capture. Ensures-bind _ _ λ v inspector.
      Ensures-bind _ _ λ w health. record {
        at = λ x h.
            let (a, b, c, d, e) = (inspector-bounds file.inspector).at v inspector in
            let (f, g, p) = (probe_path file.health).at w health in
            let few = fail_if-eq-ok _ _ (unfold validate_routing_config in h) in
            record {
              capture_directory = (capture-named file.debug_capture).at u capture;
              some_records = a;
              few_records = b;
              persistence_path = c;
              some_drain = d;
              short_drain = e;
              probe_interval = f;
              probe_timeout = g;
              probe_path = p;
              few_fallbacks = ground arith;
            };
      }
