-- ===== src/Core/Openai/MessagesStream/Events.antt =====
-- crates/onair-core/src/openai/response.rs: the events, the frames and the end of the stream, in
-- `AnthropicMessagesToChatSseNormalizer`; the finish reasons of anthropic_compat.rs.
use onair.Prelude.{
  and_step, String, true, not, ◌&&◌, ◌||◌, ltb, ◌==◌, if◌then◌else◌, Option, none, some, and_then,
  map_option, or_else, unwrap_or, is_some, List, [], ◌∷◌, Bytes,
}
use onair.Core.Openai.Json.{
  Value, Entries, null, string, object, end, as_str, as_object, as_u64, get_entry, get_field,
  insert_entry,
}
use onair.Core.Openai.Usage.{add_u64, observe_event_name, observe_object}
use onair.Core.Openai.Sse.{
  JsonCodec, SseFrame, event, data_value, data_unparseable, done_frame, pass_through,
}
use onair.Core.Openai.Sse
use onair.Core.Openai.ResponsesStream.{json}
use onair.Core.Openai.ChatStream.{says, chat_id_from_response}
use onair.Core.Openai.ChatStream.Chunks.{sse_data, done_line, no_calls}
use onair.Core.Openai.MessagesStream.{
  AnthropicMessagesToChatSseNormalizer, MessagesStep, chat_chunk, chat_usage_chunk,
  process_content_block_start, process_content_block_delta,
}

unfoldable pub chat_finish_reason_from_anthropic_stop_reason : String → String
chat_finish_reason_from_anthropic_stop_reason stop_reason =
    if stop_reason == "end_turn" || stop_reason == "stop_sequence"
    then "stop"
    else if stop_reason == "max_tokens"
    then "length"
    else if stop_reason == "tool_use"
    then "tool_calls"
    else "stop"

unfoldable pub rewrite_anthropic_messages_response_body_value :
    Option String → Option String → Value → Value
unfolding insert_entry
rewrite_anthropic_messages_response_body_value (some backend_model) (some public_model)
      (object es) =
    if says (and_then (get_entry es "model") as_str) backend_model
    then object (insert_entry "model" (string public_model) es)
    else object es
rewrite_anthropic_messages_response_body_value _ _ v = v

-- The name that the client knows, for the backend's.
client_model : Option String → Option String → Option String → Option String
client_model (some backend_model) (some public_model) model =
    if says model backend_model then some public_model else model
client_model _ _ model = model

unfoldable pub set_message :
    Value → AnthropicMessagesToChatSseNormalizer → AnthropicMessagesToChatSseNormalizer
unfolding chat_id_from_response client_model
set_message v n =
    let message = get_field v "message" in
    let text_of = λ (field : String). and_then (and_then message (λ m. get_field m field)) as_str in
    let model =
      or_else (or_else n.model (text_of "model")) (and_then (get_field v "model") as_str) in
    record n {
      message_id = or_else n.message_id (map_option chat_id_from_response (text_of "id"));
      model = client_model n.backend_model n.public_model model;
    }

counted :
    Option Entries → AnthropicMessagesToChatSseNormalizer → AnthropicMessagesToChatSseNormalizer
unfolding add_u64 observe_object
counted none n = n
counted (some usage) n =
    let input = unwrap_or (and_then (get_entry usage "input_tokens") as_u64) n.usage.input in
    let output = unwrap_or (and_then (get_entry usage "output_tokens") as_u64) n.usage.output in
    record n {
      diagnostics = observe_object usage n.diagnostics;
      usage = record n.usage { input = input; output = output; total = add_u64 input output };
    }

unfoldable pub observe_usage :
    Value → AnthropicMessagesToChatSseNormalizer → AnthropicMessagesToChatSseNormalizer
unfolding counted
observe_usage v n =
    let usage =
      or_else
        (or_else (get_field v "usage")
          (and_then (get_field v "message") (λ m. get_field m "usage")))
        (and_then (and_then (get_field v "delta") as_object) (λ d. get_entry d "usage")) in
    counted (and_then usage as_object) n

unfoldable pub done_event : AnthropicMessagesToChatSseNormalizer → MessagesStep
done_event n = if n.done_sent then ([], n) else (done_line ∷ [], record n { done_sent = true })

unfoldable pub finish_response : AnthropicMessagesToChatSseNormalizer → MessagesStep
unfolding chat_chunk chat_usage_chunk done_event
finish_response n =
    let closed = record n { completed = true } in
    let reason =
      unwrap_or n.finish_reason (if no_calls n.tool_calls then "stop" else "tool_calls") in
    let usage =
      if n.emit_usage_to_client && ltb 0 n.diagnostics.usage_object_count
      then chat_usage_chunk closed ∷ []
      else [] in
    if n.completed
    then ([], n)
    else and_step (chat_chunk closed (object end) (some reason) ∷ usage, closed) done_event

unfoldable pub error_frame : Value → AnthropicMessagesToChatSseNormalizer → MessagesStep
unfolding json done_event
error_frame v n =
    let given = and_then (and_then (get_field v "error") as_object) (λ e. get_entry e "message") in
    let message =
      unwrap_or (and_then given as_str) "The selected model could not complete the request." in
    let error = sse_data (
      json (
        (
          "error",
          json (
              ("message", string message)
              ∷ ("type", string "server_error")
              ∷ ("param", null)
              ∷ ("code", string "upstream_error")
              ∷ []),
        )
        ∷ [])) in
    and_step (error ∷ [], record n { completed = true }) done_event

unfoldable pub process_message_delta :
    Value → AnthropicMessagesToChatSseNormalizer → AnthropicMessagesToChatSseNormalizer
unfolding chat_finish_reason_from_anthropic_stop_reason
process_message_delta v n =
    let stop_reason =
      and_then
        (and_then (and_then (get_field v "delta") as_object) (λ d. get_entry d "stop_reason"))
        as_str in
    record n {
      finish_reason =
          or_else (map_option chat_finish_reason_from_anthropic_stop_reason stop_reason)
            n.finish_reason;
    }

unfoldable pub process_event : Value → AnthropicMessagesToChatSseNormalizer → MessagesStep
unfolding process_content_block_start process_content_block_delta process_message_delta
    finish_response error_frame
process_event v n =
    let type_name = and_then (get_field v "type") as_str in
    if says type_name "content_block_start"
    then process_content_block_start v n
    else if says type_name "content_block_delta"
    then process_content_block_delta v n
    else if says type_name "message_delta"
    then ([], process_message_delta v n)
    else if says type_name "message_stop"
    then finish_response n
    else if says type_name "error"
    then error_frame v n
    else ([], n)

unfoldable pub handle_data : Value → AnthropicMessagesToChatSseNormalizer → MessagesStep
unfolding rewrite_anthropic_messages_response_body_value set_message observe_usage process_event
handle_data value n =
    let v = rewrite_anthropic_messages_response_body_value n.backend_model n.public_model value in
    process_event v (observe_usage v (set_message v n))

-- The end of a message that has begun and not ended, and the end of the stream.
unfoldable pub end_stream : AnthropicMessagesToChatSseNormalizer → MessagesStep
unfolding finish_response done_event
end_stream n =
    and_step (if is_some n.message_id && not n.completed then finish_response n else ([], n))
      done_event

unfoldable pub handle_frame : SseFrame → AnthropicMessagesToChatSseNormalizer → MessagesStep
unfolding handle_data end_stream observe_event_name
handle_frame (event name line) n = (
  [],
  record n { diagnostics = observe_event_name name n.diagnostics; pending_event_name = some name },
)
handle_frame (data_value value leading_space line) n = handle_data value n
handle_frame (data_unparseable line) n = ([], record n { pending_event_name = none })
handle_frame (done_frame line) n = end_stream (record n { pending_event_name = none })
handle_frame (pass_through line) n = ([], n)

unfoldable pub handle_frames : List SseFrame → AnthropicMessagesToChatSseNormalizer → MessagesStep
unfolding handle_frame
handle_frames [] n = ([], n)
handle_frames (frame ∷ frames) n = and_step (handle_frame frame n) (handle_frames frames)

unfoldable pub push : JsonCodec → AnthropicMessagesToChatSseNormalizer → Bytes → MessagesStep
unfolding handle_frames
push codec n chunk =
    let parsed = Sse.push codec n.parser chunk in
    handle_frames parsed.0 (record n { parser = parsed.1 })

unfoldable pub handle_last : Option SseFrame → AnthropicMessagesToChatSseNormalizer → MessagesStep
unfolding handle_frame
handle_last none n = ([], n)
handle_last (some frame) n = handle_frame frame n

unfoldable pub finish : JsonCodec → AnthropicMessagesToChatSseNormalizer → MessagesStep
unfolding handle_last end_stream
finish codec n =
    let parsed = Sse.finish codec n.parser in
    and_step (handle_last parsed.0 (record n { parser = parsed.1 })) end_stream
