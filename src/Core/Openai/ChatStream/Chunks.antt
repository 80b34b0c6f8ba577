-- ===== src/Core/Openai/ChatStream/Chunks.antt =====
-- crates/onair-core/src/openai/response.rs: the chunks that `ChatCompletionsSseNormalizer` makes of
-- text and of tool calls.
use onair.Prelude.{
  and_step, ℕ, suc, String, Bool, true, false, not, ◌&&◌, ◌||◌, if◌then◌else◌, Option, none, some,
  and_then, map_option, or_else, unwrap_or, List, [], ◌∷◌, ◌++◌, length, ◌+ˢ◌, is_empty,
}
use onair.Core.Openai.Json.{
  Value, Entries, null, string, array, done, item, as_str, as_object, as_u64, get_entry, get_field,
}
use onair.Core.Openai.ResponsesStream.{json, count_of, call_at, put_call}
use onair.Core.Openai.ChatStream.{
  ChatCompletionStreamToolCall, default_chat_call, ChatCompletionsSseNormalizer, first_field, says,
  chat_id_from_response, call_name, responses_message_content_to_chat_text,
  response_output_to_chat_message,
}

-- What is written: a chunk or an error as data, or the end of the stream.
pub data ChatOutput : Type 0 where
  sse_data : Value → ChatOutput
  done_line : ChatOutput

abbrev pub ChatStep : Type 0
ChatStep = List ChatOutput × ChatCompletionsSseNormalizer

abbrev reason_value : Option String → Value
reason_value none = null
reason_value (some reason) = string reason

unfoldable pub chat_fields : ChatCompletionsSseNormalizer → List (String × Value)
unfolding chat_id_from_response
chat_fields n =
    ("id", string (chat_id_from_response (unwrap_or n.response_id "resp_unknown")))
    ∷ ("object", string "chat.completion.chunk")
    ∷ ("created", count_of n.created_at)
    ∷ ("model", string (unwrap_or n.model "unknown"))
    ∷ []

unfoldable pub chat_chunk : ChatCompletionsSseNormalizer → Value → Option String → ChatOutput
unfolding json chat_fields
chat_chunk n delta finish_reason =
    let choice = json (
      ("index", count_of 0)
      ∷ ("delta", delta)
      ∷ ("finish_reason", reason_value finish_reason)
      ∷ []) in
    let fields = chat_fields n ++ (("choices", array (item choice done)) ∷ []) in
    sse_data (json (if n.emit_usage_to_client then fields ++ (("usage", null) ∷ []) else fields))

unfoldable pub chat_usage_chunk : ChatCompletionsSseNormalizer → Value → ChatOutput
unfolding json chat_fields
chat_usage_chunk n usage =
    sse_data (json (chat_fields n ++ (("choices", array done) ∷ ("usage", usage) ∷ [])))

-- A delta, with the role of the assistant if it is the first.
unfoldable pub say_delta : String × Value → ChatCompletionsSseNormalizer → ChatStep
unfolding json chat_chunk
say_delta field n =
    let spoken = record n { role_sent = true } in
    let delta = if n.role_sent then field ∷ [] else ("role", string "assistant") ∷ field ∷ [] in
    (chat_chunk spoken (json delta) none ∷ [], spoken)

-- Text that is not empty.
unfoldable pub say_text : Option String → ChatCompletionsSseNormalizer → ChatStep
unfolding say_delta
say_text none n = ([], n)
say_text (some text) n =
    if is_empty text
    then ([], n)
    else say_delta ("content", string text) (record n { text_sent = true })

unfoldable pub process_text_delta : Value → ChatCompletionsSseNormalizer → ChatStep
unfolding say_text
process_text_delta event n = say_text (and_then (get_field event "delta") as_str) n

abbrev pub index_of : Value → ChatCompletionsSseNormalizer → ℕ
index_of event n =
    unwrap_or (and_then (get_field event "output_index") as_u64) (length n.tool_calls)

unfoldable pub state_at : ℕ → ChatCompletionsSseNormalizer → ChatCompletionStreamToolCall
unfolding call_at
state_at index n = call_at default_chat_call n.tool_calls index

unfoldable pub store_call :
    ℕ → ChatCompletionStreamToolCall → ChatCompletionsSseNormalizer → ChatCompletionsSseNormalizer
unfolding put_call
store_call index state n = record n { tool_calls = put_call index state n.tool_calls }

-- The announcement of a call that has its name.
unfoldable pub announce_named :
    ℕ → Option String → ChatCompletionStreamToolCall → ChatCompletionsSseNormalizer → ChatStep
unfolding json say_delta call_name store_call
announce_named index none state n = ([], n)
announce_named index (some name) state n =
    let call = json (
      ("index", count_of index)
      ∷ ("id", string (unwrap_or state.call_id (call_name index)))
      ∷ ("type", string "function")
      ∷ ("function", json (("name", string name) ∷ ("arguments", string "") ∷ []))
      ∷ []) in
    say_delta ("tool_calls", array (item call done))
      (store_call index (record state { announced = true }) n)

-- A call that is not there has no name, and nothing is written.
unfoldable pub announce_tool_call_if_ready : ℕ → ChatCompletionsSseNormalizer → ChatStep
unfolding announce_named state_at
announce_tool_call_if_ready index n =
    let state = state_at index n in
    if state.announced then ([], n) else announce_named index state.name state n

unfoldable pub arguments_chunk : ℕ → String → ChatCompletionsSseNormalizer → ChatStep
unfolding json chat_chunk
arguments_chunk index arguments n =
    let call = json (
      ("index", count_of index) ∷ ("function", json (("arguments", string arguments) ∷ [])) ∷ []) in
    let delta = json (("tool_calls", array (item call done)) ∷ []) in
    if is_empty arguments then ([], n) else (chat_chunk n delta none ∷ [], n)

-- A call as it is now, its announcement, and arguments.
unfoldable pub update_call :
    ℕ → ChatCompletionStreamToolCall → String → ChatCompletionsSseNormalizer → ChatStep
unfolding announce_tool_call_if_ready arguments_chunk store_call
update_call index state arguments n =
    and_step (announce_tool_call_if_ready index (store_call index state n))
      (arguments_chunk index arguments)

unfoldable pub process_function_arguments_delta : Value → ChatCompletionsSseNormalizer → ChatStep
unfolding update_call state_at
process_function_arguments_delta event n =
    let index = index_of event n in
    let delta = unwrap_or (and_then (get_field event "delta") as_str) "" in
    let state = state_at index n in
    let call_id = and_then (first_field event "call_id" "item_id") as_str in
    update_call index
      (record state {
        call_id = or_else state.call_id call_id;
        arguments = state.arguments +ˢ delta;
      })
      delta n

unfoldable pub process_function_item :
    Value → Entries → Bool → ChatCompletionsSseNormalizer → ChatStep
unfolding update_call state_at
process_function_item event entries finished n =
    let index = index_of event n in
    let call_id =
      and_then (or_else (get_entry entries "call_id") (get_entry entries "id")) as_str in
    let name = and_then (get_entry entries "name") as_str in
    let arguments = unwrap_or (and_then (get_entry entries "arguments") as_str) "" in
    let state = state_at index n in
    let emits = finished && not (is_empty arguments) && is_empty state.arguments in
    update_call index
      (record state {
        call_id = or_else state.call_id call_id;
        name = or_else state.name name;
        arguments = if emits then arguments else state.arguments;
      })
      (if emits then arguments else "") n

unfoldable pub item_step : Value → Bool → Option Entries → ChatCompletionsSseNormalizer → ChatStep
unfolding process_function_item say_text responses_message_content_to_chat_text
item_step event finished none n = ([], n)
item_step event finished (some entries) n =
    let type_name = and_then (get_entry entries "type") as_str in
    let text = map_option responses_message_content_to_chat_text (get_entry entries "content") in
    if says type_name "function_call"
    then process_function_item event entries finished n
    else if says type_name "message" && finished && not n.text_sent
    then say_text text n
    else ([], n)

unfoldable pub process_output_item : Value → Bool → ChatCompletionsSseNormalizer → ChatStep
unfolding item_step
process_output_item event finished n =
    item_step event finished (and_then (get_field event "item") as_object) n

-- A tool call of a completed response.
unfoldable pub completed_call : ℕ → Value → ChatCompletionsSseNormalizer → ChatStep
unfolding update_call state_at
completed_call index tool_call n =
    let function = and_then (get_field tool_call "function") as_object in
    let text_of =
      λ (field : String). and_then (and_then function (λ es. get_entry es field)) as_str in
    let arguments = unwrap_or (text_of "arguments") "" in
    update_call index
      (record (state_at index n) {
        call_id = and_then (get_field tool_call "id") as_str;
        name = text_of "name";
        arguments = arguments;
      })
      arguments n

unfoldable pub completed_calls : ℕ → List Value → ChatCompletionsSseNormalizer → ChatStep
unfolding completed_call
completed_calls index [] n = ([], n)
completed_calls index (tool_call ∷ rest) n =
    and_step (completed_call index tool_call n) (completed_calls (suc index) rest)

abbrev pub no_calls : List (ℕ × ChatCompletionStreamToolCall) → Bool
no_calls [] = true
no_calls (t ∷ ts) = false

unfoldable pub completed_output : Option Value → ChatCompletionsSseNormalizer → ChatStep
unfolding say_text completed_calls response_output_to_chat_message
completed_output none n = ([], n)
completed_output (some response) n =
    let message = response_output_to_chat_message (get_field response "output") in
    and_step (say_text (some message.0) n) (completed_calls 0 message.1)

unfoldable pub emit_completed_output_if_needed :
    Option Value → ChatCompletionsSseNormalizer → ChatStep
unfolding completed_output
emit_completed_output_if_needed response n =
    if n.text_sent || not (no_calls n.tool_calls) then ([], n) else completed_output response n
