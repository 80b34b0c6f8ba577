-- ===== src/Core/Openai/ChatStream/Events.antt =====
-- crates/onair-core/src/openai/response.rs: the events and the frames of the stream, and its end, in
-- `ChatCompletionsSseNormalizer`.
use onair.Prelude.{
  and_step, String, true, false, not, ◌||◌, eqb, if◌then◌else◌, Option, none, some, and_then,
  or_else, unwrap_or, List, [], ◌∷◌, Bytes,
}
use onair.Core.Openai.Json.{
  Value, Entries, null, string, object, end, as_str, as_object, as_u64, get_field,
}
use onair.Core.Openai.Usage.{observe_event_name}
use onair.Core.Openai.Normalizer.{apply_data_prologue}
use onair.Core.Openai.Sse.{
  JsonCodec, SseFrame, event, data_value, data_unparseable, done_frame, pass_through,
}
use onair.Core.Openai.Sse
use onair.Core.Openai.ResponsesStream.{json}
use onair.Core.Openai.ChatStream.{
  ChatCompletionsSseNormalizer, first_field, says, response_finish_reason,
  responses_usage_to_chat_usage,
}
use onair.Core.Openai.ChatStream.Chunks.{
  ChatOutput, sse_data, done_line, ChatStep, chat_chunk, chat_usage_chunk, process_text_delta,
  process_function_arguments_delta, process_output_item, emit_completed_output_if_needed, no_calls,
}

-- The metadata that a value gives, with the id that is read from it.
abbrev set_metadata :
    Option Value → Value → ChatCompletionsSseNormalizer → ChatCompletionsSseNormalizer
set_metadata id v n = record n {
  response_id = or_else n.response_id (and_then id as_str);
  created_at =
      if eqb n.created_at 0
      then unwrap_or (and_then (first_field v "created_at" "created") as_u64) 0
      else n.created_at;
  model = or_else n.model (and_then (get_field v "model") as_str);
}

unfoldable pub set_response_metadata :
    Option Value → ChatCompletionsSseNormalizer → ChatCompletionsSseNormalizer
set_response_metadata none n = n
set_response_metadata (some response) n = set_metadata (get_field response "id") response n

unfoldable pub set_event_metadata :
    Value → ChatCompletionsSseNormalizer → ChatCompletionsSseNormalizer
unfolding set_response_metadata
set_event_metadata v n =
    set_metadata (first_field v "response_id" "id") v
      (set_response_metadata (get_field v "response") n)

unfoldable pub done_event : ChatCompletionsSseNormalizer → ChatStep
done_event n = if n.done_sent then ([], n) else (done_line ∷ [], record n { done_sent = true })

unfoldable finish_reason_of : Option Value → ChatCompletionsSseNormalizer → String
unfolding response_finish_reason
finish_reason_of response n = elim (and_then response as_object) [
  | none ↦ if no_calls n.tool_calls then "stop" else "tool_calls"
  | some es ↦ response_finish_reason es (not (no_calls n.tool_calls))
]

-- The usage of a response, if the client asked for it.
unfoldable pub shown_usage : Option Entries → ChatCompletionsSseNormalizer → List ChatOutput
unfolding chat_usage_chunk responses_usage_to_chat_usage
shown_usage none n = []
shown_usage (some es) n =
    if n.emit_usage_to_client
    then chat_usage_chunk n (responses_usage_to_chat_usage (some (object es))) ∷ []
    else []

unfoldable pub usage_chunks : Option Value → ChatCompletionsSseNormalizer → List ChatOutput
unfolding shown_usage
usage_chunks response n =
    shown_usage (and_then (and_then response (λ r. get_field r "usage")) as_object) n

unfoldable pub finish_response : Option Value → ChatCompletionsSseNormalizer → ChatStep
unfolding set_response_metadata chat_chunk usage_chunks finish_reason_of
finish_response response n =
    let closed = set_response_metadata response (record n { completed = true }) in
    let reason = finish_reason_of response closed in
    if n.completed
    then ([], n)
    else (chat_chunk closed (object end) (some reason) ∷ usage_chunks response closed, closed)

unfoldable pub upstream_error_event : ChatOutput
unfolding json
upstream_error_event = sse_data (
    json (
      (
        "error",
        json (
            ("message", string "The selected model could not complete the request.")
            ∷ ("type", string "server_error")
            ∷ ("param", null)
            ∷ ("code", string "upstream_error")
            ∷ []),
      )
      ∷ []))

unfoldable pub fail_response : Option Value → ChatCompletionsSseNormalizer → ChatStep
unfolding upstream_error_event set_response_metadata done_event
fail_response response n =
    let closed = set_response_metadata response (record n { completed = true }) in
    if n.completed then ([], n) else and_step (upstream_error_event ∷ [], closed) done_event

-- What an event does, by its type.
unfoldable pub type_step : Option String → Value → ChatCompletionsSseNormalizer → ChatStep
unfolding process_text_delta process_function_arguments_delta process_output_item
    emit_completed_output_if_needed finish_response fail_response
type_step name v n =
    let response = get_field v "response" in
    if says name "response.output_text.delta"
    then process_text_delta v n
    else if says name "response.function_call_arguments.delta"
    then process_function_arguments_delta v n
    else if says name "response.output_item.added"
    then process_output_item v false n
    else if says name "response.output_item.done"
    then process_output_item v true n
    else if says name "response.completed" || says name "response.incomplete"
    then and_step (emit_completed_output_if_needed response n) (finish_response response)
    else if says name "response.failed" || says name "response.cancelled" || says name "error"
    then fail_response response n
    else ([], n)

unfoldable pub process_response_event : Value → ChatCompletionsSseNormalizer → ChatStep
unfolding set_event_metadata type_step
process_response_event v n =
    type_step (and_then (get_field v "type") as_str) v (set_event_metadata v n)

unfoldable pub handle_data : Value → ChatCompletionsSseNormalizer → ChatStep
unfolding apply_data_prologue process_response_event
handle_data value n =
    let p =
      apply_data_prologue value n.pending_event_name n.usage n.diagnostics n.backend_model
        n.public_model in
    process_response_event p.value (record n {
      pending_event_name = p.pending_event_name;
      usage = p.usage;
      diagnostics = p.diagnostics;
    })

-- The end of the response, if it has not come, and the end of the stream.
unfoldable pub end_stream : ChatCompletionsSseNormalizer → ChatStep
unfolding finish_response done_event
end_stream n = and_step (if n.completed then ([], n) else finish_response none n) done_event

unfoldable pub handle_frame : SseFrame → ChatCompletionsSseNormalizer → ChatStep
unfolding handle_data end_stream observe_event_name
handle_frame (event name line) n = (
  [],
  record n { diagnostics = observe_event_name name n.diagnostics; pending_event_name = some name },
)
handle_frame (data_value value leading_space line) n = handle_data value n
handle_frame (data_unparseable line) n = ([], record n { pending_event_name = none })
handle_frame (done_frame line) n = end_stream (record n { pending_event_name = none })
handle_frame (pass_through line) n = ([], n)

unfoldable pub handle_frames : List SseFrame → ChatCompletionsSseNormalizer → ChatStep
unfolding handle_frame
handle_frames [] n = ([], n)
handle_frames (frame ∷ frames) n = and_step (handle_frame frame n) (handle_frames frames)

unfoldable pub push : JsonCodec → ChatCompletionsSseNormalizer → Bytes → ChatStep
unfolding handle_frames
push codec n chunk =
    let parsed = Sse.push codec n.parser chunk in
    handle_frames parsed.0 (record n { parser = parsed.1 })

unfoldable pub handle_last : Option SseFrame → ChatCompletionsSseNormalizer → ChatStep
unfolding handle_frame
handle_last none n = ([], n)
handle_last (some frame) n = handle_frame frame n

unfoldable pub finish : JsonCodec → ChatCompletionsSseNormalizer → ChatStep
unfolding handle_last end_stream
finish codec n =
    let parsed = Sse.finish codec n.parser in
    and_step (handle_last parsed.0 (record n { parser = parsed.1 })) end_stream
