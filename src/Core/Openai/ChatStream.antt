-- ===== src/Core/Openai/ChatStream.antt =====
-- crates/onair-core/src/openai/response.rs: `ChatCompletionsSseNormalizer`, which turns a stream of
-- the Responses interface into chunks of a chat, and the parts of a body that it reads.
pub mod Chunks
pub mod Events
pub mod Parts
pub mod Ends
use onair.Prelude.{
  ℕ, suc, String, Bool, true, false, not, ◌&&◌, eqb, ◌==◌, if◌then◌else◌, Option, none, some,
  and_then, or_else, ◌||◌, ◌++◌, unwrap_or, is_some, List, [], ◌∷◌, ◌+ˢ◌, strip_prefix,
}
use onair.Core.Openai.Json.{
  Value, Items, Entries, null, bool, number, string, array, object, done, item, as_str, as_object,
  as_array, as_u64, get_entry, get_field,
}
use onair.Core.Openai.Usage.{
  UsageTotals, UsageDiagnostics, no_totals, no_diagnostics, usage_fields_from_object,
}
use onair.Core.Openai.Sse.{SseLineParser, new_parser}
use onair.Core.Openai.ResponsesStream.{json, count_of, decimal}

pub record ChatCompletionStreamToolCall : Type 0 where
  pub call_id : Option String
  pub name : Option String
  pub arguments : String
  pub announced : Bool

abbrev pub default_chat_call : ChatCompletionStreamToolCall
default_chat_call = record { call_id = none; name = none; arguments = ""; announced = false }

pub record ChatCompletionsSseNormalizer : Type 0 where
  pub parser : SseLineParser
  pub usage : UsageTotals
  pub diagnostics : UsageDiagnostics
  pub pending_event_name : Option String
  pub backend_model : Option String
  pub public_model : Option String
  pub emit_usage_to_client : Bool
  pub response_id : Option String
  pub created_at : ℕ
  pub model : Option String
  pub role_sent : Bool
  pub text_sent : Bool
  pub tool_calls : List (ℕ × ChatCompletionStreamToolCall)
  pub completed : Bool
  pub done_sent : Bool

unfoldable pub new_chat : Option String → Option String → Bool → ChatCompletionsSseNormalizer
new_chat backend_model public_model emit_usage_to_client = record {
  parser = new_parser;
  usage = no_totals;
  diagnostics = no_diagnostics;
  pending_event_name = none;
  backend_model = backend_model;
  public_model = public_model;
  emit_usage_to_client = emit_usage_to_client;
  response_id = none;
  created_at = 0;
  model = none;
  role_sent = false;
  text_sent = false;
  tool_calls = [];
  completed = false;
  done_sent = false;
}

-- `value.get(first).or_else(|| value.get(second))`
abbrev pub first_field : Value → String → String → Option Value
first_field v first second = or_else (get_field v first) (get_field v second)

abbrev pub says : Option String → String → Bool
says none s = false
says (some t) s = t == s

unfoldable pub chat_id_from_response : String → String
chat_id_from_response response_id =
    if is_some (strip_prefix "chatcmpl" response_id)
    then response_id
    else "chatcmpl_" +ˢ response_id

unfoldable pub call_name : ℕ → String
unfolding decimal
call_name index = "call_" +ˢ decimal index

part_text : Value → String
part_text part =
    unwrap_or
      (or_else (and_then (get_field part "text") as_str)
        (and_then (get_field part "refusal") as_str))
      ""

join_parts : Items → String
unfolding part_text
join_parts done = ""
join_parts (item part parts) = part_text part +ˢ join_parts parts

unfoldable pub responses_message_content_to_chat_text : Value → String
unfolding join_parts
responses_message_content_to_chat_text (string text) = text
responses_message_content_to_chat_text (array parts) = join_parts parts
responses_message_content_to_chat_text _ = ""

unfoldable pub response_function_call_to_chat_tool_call : Entries → ℕ → Value
unfolding json call_name
response_function_call_to_chat_tool_call object_entries index = json (
    (
      "id",
      string (
          unwrap_or
            (and_then (or_else (get_entry object_entries "call_id") (get_entry object_entries "id"))
              as_str)
            (call_name index)),
    )
    ∷ ("type", string "function")
    ∷ (
      "function",
      json (
          ("name", string (unwrap_or (and_then (get_entry object_entries "name") as_str) "unknown"))
          ∷ (
            "arguments",
            string (unwrap_or (and_then (get_entry object_entries "arguments") as_str) "{}"),
          )
          ∷ []),
    )
    ∷ [])

-- The content of a message of the assistant, or of one that names no role.
message_text : Entries → String
unfolding responses_message_content_to_chat_text
message_text es =
    let role = and_then (get_entry es "role") as_str in
    if says role "assistant" || not (is_some role)
    then elim (get_entry es "content") [
      | none ↦ ""
      | some content ↦ responses_message_content_to_chat_text content
    ]
    else ""

-- What an item adds to the message: text and tool calls.
item_message : ℕ → Option Entries → String × List Value
unfolding message_text response_function_call_to_chat_tool_call
item_message index none = ("", [])
item_message index (some es) =
    let type_name = and_then (get_entry es "type") as_str in
    if says type_name "message"
    then (message_text es, [])
    else if says type_name "function_call"
    then ("", response_function_call_to_chat_tool_call es index ∷ [])
    else ("", [])

output_message : ℕ → Items → String × List Value
unfolding item_message
output_message index done = ("", [])
output_message index (item v vs) =
    let first = item_message index (as_object v) in
    let rest = output_message (suc index) vs in (first.0 +ˢ rest.0, first.1 ++ rest.1)

unfoldable pub response_output_to_chat_message : Option Value → String × List Value
unfolding output_message
response_output_to_chat_message output = elim (and_then output as_array) [
  | none ↦ ("", [])
  | some items ↦ output_message 0 items
]

unfoldable pub response_finish_reason : Entries → Bool → String
response_finish_reason es has_tool_calls =
    if has_tool_calls
    then "tool_calls"
    else if says (and_then (get_entry es "status") as_str) "incomplete"
    then "length"
    else "stop"

unfoldable pub responses_usage_to_chat_usage : Option Value → Value
unfolding json usage_fields_from_object
responses_usage_to_chat_usage usage =
    let fields = usage_fields_from_object (and_then usage as_object) in
    json (
      ("prompt_tokens", count_of fields.input)
      ∷ ("prompt_tokens_details", json (("cached_tokens", count_of fields.cached) ∷ []))
      ∷ ("completion_tokens", count_of fields.output)
      ∷ ("completion_tokens_details", json (("reasoning_tokens", count_of fields.reasoning) ∷ []))
      ∷ ("total_tokens", count_of fields.total)
      ∷ [])
