-- ===== src/Tests/Observation.antt =====
-- The health of a backend and the inspector's store on short histories, and the theorems applied.
use onair.Prelude.{
  ℕ, ◌-◌, ◌≡◌, refl, String, true, false, List, [], ◌∷◌, ◌++◌, map, Option, All, Elem, arith, ◌==◌,
  if◌then◌else◌,
}
use onair.Observe.Health.{traffic, status, snapshot, snapshot_of}
use onair.Observe.Health.Histories.{
  Observation, success, failure, observed, expected_status, IsTimed, streak, Subtracts,
  status-observed,
}
use onair.Observe.Health.Stores.{recorded, history_of, snapshot-recorded}
use onair.Observe.Inspector.Records.{
  InspectorRequestRecord, InspectorRequestBase, TimelineSnapshot, InspectorOutcome, in_flight,
  completed, id_of,
}
use onair.Observe.Inspector.Store.{
  InspectorStore, Written, from_parts, get_record, clamp_retention, drop_store, is_in_flight,
}
use onair.Observe.Inspector.Store.Retention.{HasDistinctIds}
use onair.Observe.Inspector.Store.Interrupted.{IsCutShort, drop_store-interrupts}
use onair.Observe.Inspector.Store.Writes.{
  by_record, write, IsKept, write-IsKept, get_record-write, is_evicted,
}
use onair.Observe.Inspector.Live.{LiveRecord, with_started}
use onair.Observe.Inspector.Live.Sessions.{session, session-keeps_final, KeepsStart}

abbrev checked_sub : ℕ → ℕ → Option ℕ
checked_sub t d = Option.some (t - d)

checked_sub-Subtracts : Subtracts checked_sub
unfolding Subtracts
checked_sub-Subtracts t d h = refl

abbrev fails_at : ℕ → Observation
fails_at t = failure 1000 t 5 502 "connect" traffic

-- Three failures, the latest first: the oldest lies outside the minute.
abbrev history : List Observation
history =
    fails_at 200000000000
    ∷ fails_at 190000000000
    ∷ fails_at 100000000000
    ∷ success 900 4 200 traffic
    ∷ []

history-IsTimed : IsTimed history
unfolding IsTimed streak
history-IsTimed = (
  omega arith,
  (omega arith, (omega arith, _)),
  (omega arith, (omega arith, _), (omega arith, _, _)),
)

status-observed_example : status (observed checked_sub history) ≡ expected_status history
status-observed_example = status-observed checked_sub checked_sub-Subtracts history history-IsTimed

abbrev observations : List (String × Observation)
observations =
    ("a", success 1000 4 200 traffic)
    ∷ ("b", fails_at 200000000000)
    ∷ ("a", fails_at 100000000000)
    ∷ []

snapshot-recorded_example :
    snapshot (recorded checked_sub observations) ("b" ∷ "a" ∷ [])
    ≡ map (λ b. snapshot_of b (observed checked_sub (history_of b observations))) ("b" ∷ "a" ∷ [])
snapshot-recorded_example = snapshot-recorded checked_sub observations ("b" ∷ "a" ∷ [])

abbrev base : String → InspectorRequestBase
base id = record {
  record_id = id;
  client_request_id = Option.none;
  started_at_unix_ms = 1000;
  method = "POST";
  path = "/v1/responses";
  query = Option.none;
  route = "proxy";
  identity = "cli";
  requested_model = "chat-model";
  public_model = "chat-model";
  backend_model = "qwen";
  backend = "a";
  backend_target = "127.0.0.1:8080";
  backend_remote_addr = Option.none;
  stream = false;
  peer_addr = "127.0.0.1";
  effective_client_addr = "127.0.0.1";
  trusted_proxy_addr = "-";
  forwarded_for = "-";
  user_agent = "curl";
  request_body_bytes = 12;
  debug_capture_id = Option.none;
  exposed_backend_error = false;
}

abbrev timeline : TimelineSnapshot
timeline = record {
  started_unix_ms = 1000;
  total_us = 2500;
  proxy_entry_us = 0;
  auth_done_us = Option.none;
  request_inspected_us = Option.none;
  route_selected_us = Option.none;
  request_rewritten_us = Option.none;
  debug_capture_done_us = Option.none;
  backend_forward_start_us = Option.none;
  backend_headers_received_us = Option.none;
  backend_body_first_chunk_us = Option.none;
  backend_body_complete_us = Option.none;
  response_rewritten_us = Option.none;
  client_response_ready_us = Option.none;
  stream_complete_us = Option.none;
}

abbrev request_record : String → InspectorOutcome → InspectorRequestRecord
request_record id outcome = record {
  base = base id;
  outcome = outcome;
  status = 200;
  error_kind = Option.none;
  backend_attempts = [];
  retried_attempts = [];
  response_body_bytes = Option.none;
  input_tokens = 0;
  cached_input_tokens = 0;
  output_tokens = 0;
  completed_at_unix_ms = 0;
  timeline = timeline;
}

abbrev first : InspectorRequestRecord
first = request_record "1" completed

abbrev second : InspectorRequestRecord
second = request_record "2" in_flight

abbrev third : InspectorRequestRecord
third = request_record "3" completed

abbrev store : InspectorStore
store = from_parts (first ∷ second ∷ []) (Option.some [])

store-HasDistinctIds : HasDistinctIds store.records
unfolding HasDistinctIds
store-HasDistinctIds = (refl, (refl, _))

abbrev store-IsKept : IsKept 2 store
store-IsKept = record { distinct = store-HasDistinctIds; bounded = omega arith }

write-IsKept_example : IsKept 2 (write by_record store true 2 third)
write-IsKept_example = write-IsKept by_record store true 2 third store-IsKept

get_record-write_example : get_record (write by_record store true 2 third) "1" ≡ (
    if id_of third == "1"
    then Option.some third
    else if is_evicted store.records third (clamp_retention 2) "1"
    then Option.none
    else get_record store "1")
get_record-write_example = get_record-write by_record store 2 third "1" store-HasDistinctIds

drop_store-interrupts_example :
    All (λ (r : InspectorRequestRecord). is_in_flight r.outcome ≡ false) (drop_store store).0
    × ((more : Written) × ((drop_store store).1 ≡ Option.some ([] ++ more))
        × ((r : InspectorRequestRecord)
            → Elem r store.records
            → is_in_flight r.outcome ≡ true
            → (w : InspectorRequestRecord) × Elem {A = InspectorRequestRecord × ℕ} (w, 100000) more
              × IsCutShort r w))
drop_store-interrupts_example = drop_store-interrupts store [] refl

abbrev live : LiveRecord
live = record { enabled = true; retention_requests = 2; current = request_record "3" in_flight }

abbrev keep : InspectorRequestRecord → InspectorRequestRecord
keep r = r

keep-KeepsStart : KeepsStart keep
unfolding KeepsStart
keep-KeepsStart r = refl

session-keeps_final_example :
    (get_record (session live (keep ∷ []) third store) (id_of third)
      ≡ Option.some (with_started 1000 third))
    × IsKept 2 (session live (keep ∷ []) third store)
session-keeps_final_example =
    session-keeps_final live (keep ∷ []) third store refl (keep-KeepsStart, _) store-IsKept
