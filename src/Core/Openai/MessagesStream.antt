-- ===== src/Core/Openai/MessagesStream.antt =====
-- crates/onair-core/src/openai/response.rs: `AnthropicMessagesToChatSseNormalizer`, which turns a
-- stream of Anthropic messages into chunks of a chat: its state and the chunks that it writes.
pub mod Events
use onair.Prelude.{
  and_step, ℕ, String, Bool, true, false, eqb, if◌then◌else◌, Option, none, some, and_then,
  map_option, or_else, unwrap_or, List, [], ◌∷◌, ◌++◌, length, ◌+ˢ◌, is_empty,
}
use onair.Core.Openai.Json.{
  Value, Entries, null, string, array, object, done, item, as_str, as_object, as_u64, get_entry,
  get_field, insert_entry,
}
use onair.Core.Openai.Usage.{UsageTotals, UsageDiagnostics, no_totals, no_diagnostics}
use onair.Core.Openai.Sse.{SseLineParser, new_parser}
use onair.Core.Openai.ResponsesStream.{json, count_of, call_at, put_call}
use onair.Core.Openai.ChatStream.{ChatCompletionStreamToolCall, default_chat_call, says, call_name}
use onair.Core.Openai.ChatStream.Chunks.{ChatOutput, sse_data}

pub record AnthropicMessagesToChatSseNormalizer : Type 0 where
  pub parser : SseLineParser
  pub usage : UsageTotals
  pub diagnostics : UsageDiagnostics
  pub pending_event_name : Option String
  pub backend_model : Option String
  pub public_model : Option String
  pub emit_usage_to_client : Bool
  pub message_id : Option String
  pub model : Option String
  pub role_sent : Bool
  pub content_started : Bool
  pub tool_calls : List (ℕ × ChatCompletionStreamToolCall)
  pub finish_reason : Option String
  pub completed : Bool
  pub done_sent : Bool

unfoldable pub new_messages :
    Option String → Option String → Bool → AnthropicMessagesToChatSseNormalizer
new_messages backend_model public_model emit_usage_to_client = record {
  parser = new_parser;
  usage = no_totals;
  diagnostics = no_diagnostics;
  pending_event_name = none;
  backend_model = backend_model;
  public_model = public_model;
  emit_usage_to_client = emit_usage_to_client;
  message_id = none;
  model = none;
  role_sent = false;
  content_started = false;
  tool_calls = [];
  finish_reason = none;
  completed = false;
  done_sent = false;
}

abbrev pub MessagesStep : Type 0
MessagesStep = List ChatOutput × AnthropicMessagesToChatSseNormalizer

abbrev reason_value : Option String → Value
reason_value none = null
reason_value (some reason) = string reason

abbrev chunk_fields : AnthropicMessagesToChatSseNormalizer → List (String × Value)
chunk_fields n =
    ("id", string (unwrap_or n.message_id "chatcmpl_unknown"))
    ∷ ("object", string "chat.completion.chunk")
    ∷ ("created", count_of 0)
    ∷ ("model", string (unwrap_or n.model "unknown"))
    ∷ []

unfoldable pub chat_chunk :
    AnthropicMessagesToChatSseNormalizer → Value → Option String → ChatOutput
unfolding json
chat_chunk n delta finish_reason =
    let choice = json (
      ("index", count_of 0)
      ∷ ("delta", delta)
      ∷ ("finish_reason", reason_value finish_reason)
      ∷ []) in
    let fields = chunk_fields n ++ (("choices", array (item choice done)) ∷ []) in
    sse_data (json (if n.emit_usage_to_client then fields ++ (("usage", null) ∷ []) else fields))

unfoldable pub chat_usage_chunk : AnthropicMessagesToChatSseNormalizer → ChatOutput
unfolding json
chat_usage_chunk n =
    let usage = json (
      ("prompt_tokens", count_of n.usage.input)
      ∷ ("completion_tokens", count_of n.usage.output)
      ∷ ("total_tokens", count_of n.usage.total)
      ∷ []) in
    sse_data (json (chunk_fields n ++ (("choices", array done) ∷ ("usage", usage) ∷ [])))

-- A delta, with the role of the assistant if it is the first.
unfoldable pub say_delta : String × Value → AnthropicMessagesToChatSseNormalizer → MessagesStep
unfolding json chat_chunk
say_delta field n =
    let spoken = record n { role_sent = true } in
    let delta = if n.role_sent then field ∷ [] else ("role", string "assistant") ∷ field ∷ [] in
    (chat_chunk spoken (json delta) none ∷ [], spoken)

abbrev index_of : Value → AnthropicMessagesToChatSseNormalizer → ℕ
index_of event n = unwrap_or (and_then (get_field event "index") as_u64) (length n.tool_calls)

-- A call that is not there has no name, and nothing is written.
unfoldable pub announce_tool_call_if_ready : ℕ → AnthropicMessagesToChatSseNormalizer → MessagesStep
unfolding json say_delta call_name call_at put_call
announce_tool_call_if_ready index n =
    let state = call_at default_chat_call n.tool_calls index in
    let announced = record n {
      tool_calls = put_call index (record state { announced = true }) n.tool_calls;
    } in
    let call = λ (name : String). json (
      ("index", count_of index)
      ∷ ("id", string (unwrap_or state.call_id (call_name index)))
      ∷ ("type", string "function")
      ∷ ("function", json (("name", string name) ∷ ("arguments", string "") ∷ []))
      ∷ []) in
    if state.announced then ([], n) else elim state.name [
      | none ↦ ([], n)
      | some name ↦ say_delta ("tool_calls", array (item (call name) done)) announced
    ]

unfoldable pub block_start :
    Option Entries → ℕ → AnthropicMessagesToChatSseNormalizer → MessagesStep
unfolding announce_tool_call_if_ready call_name call_at put_call
block_start none index n = ([], n)
block_start (some block) index n =
    let state = call_at default_chat_call n.tool_calls index in
    let named = record state {
      call_id = or_else (and_then (get_entry block "id") as_str) (some (call_name index));
      name = and_then (get_entry block "name") as_str;
    } in
    if says (and_then (get_entry block "type") as_str) "tool_use"
    then announce_tool_call_if_ready index
        (record n { tool_calls = put_call index named n.tool_calls })
    else ([], n)

unfoldable pub process_content_block_start :
    Value → AnthropicMessagesToChatSseNormalizer → MessagesStep
unfolding block_start
process_content_block_start event n =
    block_start (and_then (get_field event "content_block") as_object) (index_of event n) n

unfoldable pub text_delta : String → AnthropicMessagesToChatSseNormalizer → MessagesStep
unfolding say_delta
text_delta text n =
    if is_empty text
    then ([], n)
    else say_delta ("content", string text) (record n { content_started = true })

unfoldable pub arguments_delta : ℕ → String → AnthropicMessagesToChatSseNormalizer → MessagesStep
unfolding json chat_chunk announce_tool_call_if_ready call_at put_call
arguments_delta index partial_json n =
    let state = call_at default_chat_call n.tool_calls index in
    let grown = record n {
      tool_calls =
          put_call index (record state { arguments = state.arguments +ˢ partial_json })
            n.tool_calls;
    } in
    let call = json (
      ("index", count_of index)
      ∷ ("function", json (("arguments", string partial_json) ∷ []))
      ∷ []) in
    let delta = json (("tool_calls", array (item call done)) ∷ []) in
    if is_empty partial_json
    then ([], n)
    else and_step (announce_tool_call_if_ready index grown) (λ m. (chat_chunk m delta none ∷ [], m))

unfoldable pub block_delta :
    Option Entries → ℕ → AnthropicMessagesToChatSseNormalizer → MessagesStep
unfolding text_delta arguments_delta
block_delta none index n = ([], n)
block_delta (some delta) index n =
    let type_name = and_then (get_entry delta "type") as_str in
    let text_of = λ (field : String). unwrap_or (and_then (get_entry delta field) as_str) "" in
    if says type_name "text_delta"
    then text_delta (text_of "text") n
    else if says type_name "input_json_delta"
    then arguments_delta index (text_of "partial_json") n
    else ([], n)

unfoldable pub process_content_block_delta :
    Value → AnthropicMessagesToChatSseNormalizer → MessagesStep
unfolding block_delta
process_content_block_delta event n =
    block_delta (and_then (get_field event "delta") as_object) (index_of event n) n
