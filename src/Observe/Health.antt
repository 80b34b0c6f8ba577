-- ===== src/Observe/Health.antt =====
-- The health of the backends: crates/onair-obs/src/observe/health.rs.
-- An `Instant` is its number of nanoseconds and a duration in milliseconds is the number that
-- `as_millis` returns. The clocks are read by the caller.
pub mod Window
pub mod Histories
pub mod Stores
use onair.Prelude.{
  ℕ, suc, ◌+◌, ◌-◌, ◌%◌, ◌^◌, min, String, Bool, true, List, [], ◌∷◌, ◌++◌, map, Option, none, some,
  ltb, leb, eqb, not, length, unwrap_or, is_some, map_option, StringMap, get, put, if◌then◌else◌,
}

abbrev pub unhealthy_failure_threshold : ℕ
unhealthy_failure_threshold = 3

abbrev pub failure_window : ℕ
failure_window = 60000000000

-- `u64::saturating_add`
abbrev pub saturating_add : ℕ → ℕ → ℕ
saturating_add a b = min (a + b) (2 ^ 64 - 1)

-- `as_millis().try_into().unwrap_or(u64::MAX)`
abbrev pub duration_millis : ℕ → ℕ
duration_millis d = min d (2 ^ 64 - 1)

pub data ObservationSource : Type 0 where
  traffic probe : ObservationSource

abbrev pub as_str : ObservationSource → String
as_str traffic = "traffic"
as_str probe = "probe"

pub record BackendHealthRecord : Type 0 where
  pub traffic_successes : ℕ
  pub traffic_failures : ℕ
  pub probe_successes : ℕ
  pub probe_failures : ℕ
  pub recent_failures : List ℕ
  pub last_success_unix_ms : Option ℕ
  pub last_failure_unix_ms : Option ℕ
  pub last_observed_unix_ms : Option ℕ
  pub last_status : Option ℕ
  pub last_error_kind : Option String
  pub last_latency_ms : Option ℕ
  pub last_source : Option ObservationSource

abbrev pub default_record : BackendHealthRecord
default_record = record {
  traffic_successes = 0;
  traffic_failures = 0;
  probe_successes = 0;
  probe_failures = 0;
  recent_failures = [];
  last_success_unix_ms = none;
  last_failure_unix_ms = none;
  last_observed_unix_ms = none;
  last_status = none;
  last_error_kind = none;
  last_latency_ms = none;
  last_source = none;
}

abbrev pub if_traffic {ℓ} : {A : Type ℓ} → ObservationSource → A → A → A
if_traffic traffic a b = a
if_traffic probe a b = b

unfoldable pub status : BackendHealthRecord → String
status r =
    if not (is_some r.last_observed_unix_ms)
    then "unknown"
    else if eqb (length r.recent_failures) 0
    then "healthy"
    else if leb unhealthy_failure_threshold (length r.recent_failures)
    then "unhealthy"
    else "degraded"

-- The update of `record_success_with_source`; `wall` is the wall clock in milliseconds.
unfoldable pub observe_success :
    BackendHealthRecord
    → (wall : ℕ) → (latency : ℕ) → (code : ℕ) → ObservationSource
    → BackendHealthRecord
observe_success r wall latency code source =
    let at = duration_millis wall in
    record {
      traffic_successes =
          if_traffic source (saturating_add r.traffic_successes 1) r.traffic_successes;
      traffic_failures = r.traffic_failures;
      probe_successes = if_traffic source r.probe_successes (saturating_add r.probe_successes 1);
      probe_failures = r.probe_failures;
      recent_failures = [];
      last_success_unix_ms = some at;
      last_failure_unix_ms = r.last_failure_unix_ms;
      last_observed_unix_ms = some at;
      last_status = some code;
      last_error_kind = none;
      last_latency_ms = some (duration_millis latency);
      last_source = some source;
    }

-- The loop that pops failures before the cutoff from the front.
unfoldable pub pop_before : ℕ → List ℕ → List ℕ
pop_before cutoff [] = []
pop_before cutoff (front ∷ later) =
    let rest = pop_before cutoff later in if ltb front cutoff then rest else front ∷ later

-- `Instant::checked_sub` is the parameter.
module _ (checked_sub : ℕ → ℕ → Option ℕ) where
  abbrev pub cutoff_at : ℕ → ℕ
  cutoff_at now = unwrap_or (checked_sub now failure_window) now

  -- The update of `record_failure_with_source`; `now` is the instant.
  unfoldable pub observe_failure :
      BackendHealthRecord
      → (wall : ℕ) → (now : ℕ) → (latency : ℕ) → (code : ℕ) → (error_kind : String)
      → ObservationSource
      → BackendHealthRecord
  unfolding pop_before
  observe_failure r wall now latency code error_kind source =
      let at = duration_millis wall in
      record {
        traffic_successes = r.traffic_successes;
        traffic_failures =
            if_traffic source (saturating_add r.traffic_failures 1) r.traffic_failures;
        probe_successes = r.probe_successes;
        probe_failures = if_traffic source r.probe_failures (saturating_add r.probe_failures 1);
        recent_failures = pop_before (cutoff_at now) (r.recent_failures ++ (now ∷ []));
        last_success_unix_ms = r.last_success_unix_ms;
        last_failure_unix_ms = some at;
        last_observed_unix_ms = some at;
        last_status = some code;
        last_error_kind = some error_kind;
        last_latency_ms = some (duration_millis latency);
        last_source = some source;
      }

abbrev pub BackendHealthStore : Type 0
BackendHealthStore = StringMap BackendHealthRecord

-- `records.get(backend).cloned().unwrap_or_default()`
abbrev pub record_of : BackendHealthStore → String → BackendHealthRecord
record_of store backend = unwrap_or (get store backend) default_record

unfoldable pub record_success :
    BackendHealthStore
    → String
    → (wall : ℕ) → (latency : ℕ) → (code : ℕ) → ObservationSource
    → BackendHealthStore
record_success store backend wall latency code source =
    put backend (observe_success (record_of store backend) wall latency code source) store

unfoldable pub record_failure :
    (ℕ → ℕ → Option ℕ)
    → BackendHealthStore
    → String
    → (wall : ℕ) → (now : ℕ) → (latency : ℕ) → (code : ℕ) → (error_kind : String)
    → ObservationSource
    → BackendHealthStore
record_failure checked_sub store backend wall now latency code error_kind source =
    put backend
      (observe_failure checked_sub (record_of store backend) wall now latency code error_kind
        source)
      store

pub record BackendHealthSnapshot : Type 0 where
  pub backend : String
  pub health : String
  pub successes : ℕ
  pub failures : ℕ
  pub traffic_successes : ℕ
  pub traffic_failures : ℕ
  pub probe_successes : ℕ
  pub probe_failures : ℕ
  pub consecutive_failures : ℕ
  pub last_success_unix_ms : Option ℕ
  pub last_failure_unix_ms : Option ℕ
  pub last_observed_unix_ms : Option ℕ
  pub last_status : Option ℕ
  pub last_error_kind : Option String
  pub last_latency_ms : Option ℕ
  pub last_source : Option String

-- The sums are of `u64`.
unfoldable pub snapshot_of : String → BackendHealthRecord → BackendHealthSnapshot
unfolding status
snapshot_of backend r = record {
  backend = backend;
  health = status r;
  successes = (r.traffic_successes + r.probe_successes) % 2 ^ 64;
  failures = (r.traffic_failures + r.probe_failures) % 2 ^ 64;
  traffic_successes = r.traffic_successes;
  traffic_failures = r.traffic_failures;
  probe_successes = r.probe_successes;
  probe_failures = r.probe_failures;
  consecutive_failures = length r.recent_failures;
  last_success_unix_ms = r.last_success_unix_ms;
  last_failure_unix_ms = r.last_failure_unix_ms;
  last_observed_unix_ms = r.last_observed_unix_ms;
  last_status = r.last_status;
  last_error_kind = r.last_error_kind;
  last_latency_ms = r.last_latency_ms;
  last_source = map_option as_str r.last_source;
}

unfoldable pub snapshot : BackendHealthStore → List String → List BackendHealthSnapshot
snapshot store backends = map (λ b. snapshot_of b (record_of store b)) backends
