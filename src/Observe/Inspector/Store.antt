-- ===== src/Observe/Inspector/Store.antt =====
-- The store of inspector/store.rs. The writer of the persistence is the log of the calls of its
-- `record`, and the channel is the log of what is sent to it.
pub mod Retention
pub mod Interrupted
pub mod Writes
use onair.Prelude.{
  ℕ, ◌+◌, ◌-◌, ◌/◌, ◌^◌, min, max, String, Bool, true, false, List, [], ◌∷◌, ◌++◌, map, Option,
  none, some, ◌==◌, leb, length, drop, find, filter, any, map_option, if◌then◌else◌,
}
use onair.Observe.Inspector.Records.{
  InspectorRequestRecord, InspectorOutcome, in_flight, interrupted, id_of,
}

abbrev pub max_retention_requests : ℕ
max_retention_requests = 100000

abbrev pub Written : Type 0
Written = List (InspectorRequestRecord × ℕ)

pub record InspectorStore : Type 0 where
  pub records : List InspectorRequestRecord
  pub events : List InspectorRequestRecord
  pub persistence : Option Written

abbrev pub from_parts : List InspectorRequestRecord → Option Written → InspectorStore
from_parts records persistence = record {
  records = records;
  events = [];
  persistence = persistence;
}

-- `retention_requests.clamp(1, MAX_RETENTION_REQUESTS)`
abbrev pub clamp_retention : ℕ → ℕ
clamp_retention n = min (max n 1) max_retention_requests

abbrev pub has_id : String → InspectorRequestRecord → Bool
has_id id r = id_of r == id

-- The first record with the id of the new one is replaced; `none` where there is none.
unfoldable pub replace :
    List InspectorRequestRecord → InspectorRequestRecord → Option (List InspectorRequestRecord)
replace [] r = none
replace (slot ∷ later) r =
    let rest = replace later r in
    if has_id (id_of r) slot then some (r ∷ later) else map_option (λ l. slot ∷ l) rest

abbrev pub pop_front : List InspectorRequestRecord → List InspectorRequestRecord
pop_front [] = []
pop_front (r ∷ later) = later

abbrev pub push_evicting :
    List InspectorRequestRecord → InspectorRequestRecord → ℕ → List InspectorRequestRecord
push_evicting records r retention =
    (if leb retention (length records) then pop_front records else records) ++ (r ∷ [])

abbrev or_pushed :
    Option (List InspectorRequestRecord) → List InspectorRequestRecord → List InspectorRequestRecord
or_pushed none pushed = pushed
or_pushed (some replaced) pushed = replaced

unfoldable pub upsert_with_fifo_eviction :
    List InspectorRequestRecord → InspectorRequestRecord → ℕ → List InspectorRequestRecord
unfolding replace
upsert_with_fifo_eviction records r retention =
    or_pushed (replace records r) (push_evicting records r retention)

abbrev pub written : Option Written → InspectorRequestRecord → ℕ → Option Written
written persistence r retention = map_option (λ log. log ++ ((r, retention) ∷ [])) persistence

-- `record`
unfoldable pub record_request :
    InspectorStore → (enabled : Bool) → (retention : ℕ) → InspectorRequestRecord → InspectorStore
record_request store enabled retention r =
    let n = clamp_retention retention in
    if enabled
    then record {
      records = upsert_with_fifo_eviction store.records r n;
      events = store.events ++ (r ∷ []);
      persistence = written store.persistence r n;
    }
    else store

unfoldable pub upsert :
    InspectorStore → (enabled : Bool) → (retention : ℕ) → InspectorRequestRecord → InspectorStore
upsert store enabled retention r =
    if enabled
    then record {
      records = upsert_with_fifo_eviction store.records r (clamp_retention retention);
      events = store.events ++ (r ∷ []);
      persistence = store.persistence;
    }
    else store

unfoldable pub upsert_final :
    InspectorStore → (enabled : Bool) → (retention : ℕ) → InspectorRequestRecord → InspectorStore
upsert_final store enabled retention r =
    let n = clamp_retention retention in
    if enabled
    then record {
      records = upsert_with_fifo_eviction store.records r n;
      events = store.events ++ (r ∷ []);
      persistence = written store.persistence r n;
    }
    else store

unfoldable pub records_limited : InspectorStore → ℕ → List InspectorRequestRecord
records_limited store limit = drop (length store.records - max limit 1) store.records

abbrev pub retained_len : InspectorStore → ℕ
retained_len store = length store.records

-- The search from the back: the last record that passes the test.
unfoldable pub find_last :
    (InspectorRequestRecord → Bool) → List InspectorRequestRecord → Option InspectorRequestRecord
find_last test [] = none
find_last test (r ∷ later) = elim (find_last test later) [
  | none ↦ if test r then some r else none
  | some found ↦ some found
]

unfoldable pub get_record : InspectorStore → String → Option InspectorRequestRecord
unfolding find_last
get_record store id = find_last (has_id id) store.records

abbrev pub mark_record_interrupted : InspectorRequestRecord → InspectorRequestRecord
mark_record_interrupted r = record {
  base = r.base;
  outcome = interrupted;
  status = 503;
  error_kind = some "interrupted";
  backend_attempts = r.backend_attempts;
  retried_attempts = r.retried_attempts;
  response_body_bytes = r.response_body_bytes;
  input_tokens = r.input_tokens;
  cached_input_tokens = r.cached_input_tokens;
  output_tokens = r.output_tokens;
  completed_at_unix_ms = min (r.base.started_at_unix_ms + r.timeline.total_us / 1000) (2 ^ 64 - 1);
  timeline = r.timeline;
}

abbrev pub is_in_flight : InspectorOutcome → Bool
is_in_flight in_flight = true
is_in_flight _ = false

abbrev pub is_interrupted : InspectorOutcome → Bool
is_interrupted interrupted = true
is_interrupted _ = false

abbrev pub interrupt_in_flight : InspectorRequestRecord → InspectorRequestRecord
interrupt_in_flight r = if is_in_flight r.outcome then mark_record_interrupted r else r

abbrev drop_with :
    List InspectorRequestRecord → Option Written → List InspectorRequestRecord × Option Written
drop_with left none = (left, none)
drop_with left (some log) =
    let records = map interrupt_in_flight left in
    let cut_short = filter (λ (r : InspectorRequestRecord). is_interrupted r.outcome) records in
    (records, some (log ++ map (λ r. (r, max_retention_requests)) cut_short))

-- `drop` of the store: the records left behind, and the last calls of the writer.
unfoldable pub drop_store : InspectorStore → List InspectorRequestRecord × Option Written
drop_store store = drop_with store.records store.persistence
