-- ===== src/Tests/Routing.antt =====
-- The routing of a chat request over the configuration of the fixtures, and the theorems applied.
use onair.Prelude.{
  ℕ, ◌+◌, ◌%◌, ◌^◌, ◌<◌, ◌≡◌, refl, ◌↔◌, ◌⊎◌, String, Bool, true, false, List, [], ◌∷◌, Option,
  Elem, contains, here, there, arith, length,
}
use onair.Core.Error.{ok, err, endpoint_unavailable, bad_request}
use onair.Core.Config.Types.{ResolvedRoute, priority, round_robin}
use onair.Proxy.Routing.Paths.{path_capability_candidates}
use onair.Proxy.Routing.Paths.Names.{AllNormal}
use onair.Proxy.Routing.Paths.Candidates.{segments, Asks, path_capability_candidates_iff}
use onair.Proxy.Routing.Modes.{RequestMode, native, request_mode_for_path, supports_tools}
use onair.Proxy.Routing.Modes.Justified.{
  covers, upstream_endpoint, endpoint_of, IsOptedIn, request_mode_for_path-IsJustified,
  request_mode_for_path-keeps,
}
use onair.Proxy.Routing.Strategy.{
  RoundRobinCounters, next_index, rotate_left, weighted_rotation, sum,
}
use onair.Proxy.Routing.Strategy.RoundRobin.{run, counter, calls_for, next_index-run}
use onair.Proxy.Routing.Strategy.Weighted.{IsBracketed, weighted_rotation-IsBracketed}
use onair.Proxy.Routing.Select.{
  SelectionRequest, SelectedRoute, NonEmptyVec, to_vec, select, build_candidate, public_route,
}
use onair.Proxy.Routing.Select.Candidates.{IsOffered}
use onair.Proxy.Routing.Select.Errors.{LacksTools, select-error}
use onair.Proxy.Routing.Select.Offers.{select-IsOffered}
use onair.Proxy.Routing.Select.Order.{with_strategy, select-rotates}
use onair.Proxy.Routing.Select.Configured.{configured-IsRoutable}
use onair.Tests.Fixtures.{file, host, resolved, route, client, backend, binding}
use onair.Tests.Configuration.{file-resolves}

abbrev request : Bool → SelectionRequest ℕ
request tools = record {
  backends = resolved.backends;
  routes = resolved.routes;
  strategy = round_robin;
  path = "/v1/chat/completions";
  model = Option.some "chat-model";
  stream = true;
  tools = tools;
  sticky_key = Option.none;
}

abbrev pub selected : String → ℕ → SelectedRoute ℕ
selected id weight =
    build_candidate (backend id weight) (Option.some route) (Option.some (binding id))
      (Option.some "chat-model") native

abbrev draw : ℕ → ℕ
draw total = 0

-- The second call of the round robin starts with the second backend.
abbrev answer : NonEmptyVec (SelectedRoute ℕ)
answer = record { head = selected "b" 3; tail = selected "a" 1 ∷ [] }

abbrev in_order : NonEmptyVec (SelectedRoute ℕ)
in_order = record { head = selected "a" 1; tail = selected "b" 3 ∷ [] }

abbrev counters : RoundRobinCounters
counters = ("chat-model", 1) ∷ []

select-answers : (select (request false) counters draw).0 ≡ ok answer
unfolding select next_index request_mode_for_path
select-answers = refl

select-IsOffered_example :
    Elem (selected "a" 1) (to_vec answer)
    ↔ IsOffered (request false) route "chat-model" (selected "a" 1)
select-IsOffered_example =
    select-IsOffered (request false) counters draw route "chat-model" answer refl refl
      select-answers (selected "a" 1)

abbrev offered : IsOffered (request false) route "chat-model" (selected "a" 1)
offered =
    (select-IsOffered (request false) counters draw route "chat-model" answer refl refl
        select-answers (selected "a" 1)).0
      (there (here refl))

select-refuses :
    (select (request true) counters draw).0
    ≡ err (bad_request "The selected model does not support tool calling." (Option.some "tools"))
unfolding select next_index request_mode_for_path supports_tools
select-refuses = refl

select-error_example :
    ((c : SelectedRoute ℕ) → ¬ IsOffered (request true) route "chat-model" c)
    × ((LacksTools (request true) route
          × (bad_request "The selected model does not support tool calling." (Option.some "tools")
              ≡ bad_request "The selected model does not support tool calling."
                  (Option.some "tools")))
        ⊎ ((¬ LacksTools (request true) route)
            × (bad_request "The selected model does not support tool calling." (Option.some "tools")
                ≡ endpoint_unavailable "/v1/chat/completions" (Option.some "chat-model"))))
select-error_example =
    select-error (request true) counters draw route "chat-model"
      (bad_request "The selected model does not support tool calling." (Option.some "tools")) refl
      refl select-refuses

select-in_order : (select (with_strategy priority (request false)) counters draw).0 ≡ ok in_order
unfolding select next_index request_mode_for_path
select-in_order = refl

select-rotated : (select (with_strategy round_robin (request false)) counters draw).0 ≡ ok answer
unfolding select next_index request_mode_for_path
select-rotated = refl

select-rotates_example :
    (i : ℕ) × (i < length (to_vec in_order)) × (to_vec answer ≡ rotate_left i (to_vec in_order))
select-rotates_example =
    select-rotates round_robin (request false) counters draw answer in_order select-rotated
      select-in_order

configured-IsRoutable_example :
    (r : ResolvedRoute ℕ) × (public_route (request false) "chat-model" ≡ Option.some r)
    × ((c : SelectedRoute ℕ) → IsOffered (request false) r "chat-model" c → 0 < c.weight)
configured-IsRoutable_example =
    configured-IsRoutable host file resolved client "chat-model" (request false) file-resolves
      (here refl) (here refl) refl refl

mode-chosen :
    request_mode_for_path "/v1/responses"
      ("responses" ∷ [])
      ("chat" ∷ "responses_via_chat_completions" ∷ [])
      Option.none
    ≡ Option.some RequestMode.responses_via_chat_completions_mode
unfolding request_mode_for_path
mode-chosen = refl

request_mode_for_path-IsJustified_example :
    (covers ("responses" ∷ []) ("chat" ∷ "responses_via_chat_completions" ∷ []) (
        upstream_endpoint RequestMode.responses_via_chat_completions_mode
          (endpoint_of "/v1/responses"))
      ≡ true)
    × IsOptedIn
        ("chat" ∷ "responses_via_chat_completions" ∷ [])
        Option.none
        (endpoint_of "/v1/responses")
        RequestMode.responses_via_chat_completions_mode
request_mode_for_path-IsJustified_example =
    request_mode_for_path-IsJustified "/v1/responses" ("responses" ∷ [])
      ("chat" ∷ "responses_via_chat_completions" ∷ []) Option.none
      RequestMode.responses_via_chat_completions_mode mode-chosen

request_mode_for_path-keeps_example :
    (mode : RequestMode) × (request_mode_for_path "/v1/messages/" [] ("messages" ∷ []) Option.none
      ≡ Option.some mode)
    × (upstream_endpoint mode (endpoint_of "/v1/messages/") ≡ endpoint_of "/v1/messages/")
request_mode_for_path-keeps_example =
    request_mode_for_path-keeps "/v1/messages/" [] ("messages" ∷ []) Option.none refl refl

next_index-run_example :
    (next_index (run [] (("m", 2) ∷ ("n", 2) ∷ ("m", 3) ∷ [])) "m" 2).0
    ≡ (counter [] "m" + calls_for "m" (("m", 2) ∷ ("n", 2) ∷ ("m", 3) ∷ [])) % 2 ^ 64 % 2
next_index-run_example =
    next_index-run [] (("m", 2) ∷ ("n", 2) ∷ ("m", 3) ∷ []) "m" 2 (omega arith) (omega arith)

abbrev draw_two : ℕ → ℕ
draw_two total = 2

two-below : 2 < sum (1 ∷ 3 ∷ [])
unfolding sum
two-below = omega arith

weighted_rotation-IsBracketed_example :
    IsBracketed 2 0 (1 ∷ 3 ∷ []) (weighted_rotation draw_two (1 ∷ 3 ∷ []))
weighted_rotation-IsBracketed_example =
    weighted_rotation-IsBracketed draw_two (1 ∷ 3 ∷ []) (omega arith) two-below

path_capability_candidates_iff_example :
    (names : List String) × AllNormal (segments "/v1/Chat/completions") names
    × ((x : String)
        → (contains (path_capability_candidates "/v1/Chat/completions") x ≡ true) ↔ Asks names x)
path_capability_candidates_iff_example = path_capability_candidates_iff "/v1/Chat/completions"

candidates_found :
    path_capability_candidates "/v1/Chat-Models/list"
    ≡ "chat_model" ∷ "chat_models" ∷ "chat_models_list" ∷ "list" ∷ []
unfolding path_capability_candidates
candidates_found = refl
