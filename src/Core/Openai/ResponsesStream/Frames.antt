-- ===== src/Core/Openai/ResponsesStream/Frames.antt =====
-- crates/onair-core/src/openai/response.rs: the end of a response, and the chunks and frames of the
-- stream, in `ResponsesSseNormalizer`.
use onair.Prelude.{
  and_step, true, if◌then◌else◌, Option, none, some, and_then, unwrap_or, List, [], ◌∷◌, ◌++◌,
  Bytes, ◌+ˢ◌,
}
use onair.Core.Openai.Json.{
  Value, Items, Entries, null, string, array, done, item, as_str, as_object, as_array, get_entry,
  get_field,
}
use onair.Core.Openai.Usage.{observe_event_name}
use onair.Core.Openai.Normalizer.{apply_data_prologue}
use onair.Core.Openai.Sse.{
  JsonCodec, SseFrame, event, data_value, data_unparseable, done_frame, pass_through,
}
use onair.Core.Openai.Sse
use onair.Core.Openai.ResponsesStream.{
  Output, raw, typed, json, count_of, decimal, ToolCalls, ResponsesSseNormalizer, message_id_of,
  response_object,
}
use onair.Core.Openai.ResponsesStream.Deltas.{
  Step, set_chunk_metadata, start_response_events, text_delta, process_tool_call_deltas,
}

-- The events that end the text, and the item that the response holds of it.
unfoldable pub finished_text : ResponsesSseNormalizer → List Output × List Value
unfolding json message_id_of
finished_text n =
    let part = json (
      ("type", string "output_text")
      ∷ ("text", string n.output_text)
      ∷ ("annotations", array done)
      ∷ ("logprobs", array done)
      ∷ []) in
    let message = json (
      ("id", string (message_id_of n))
      ∷ ("type", string "message")
      ∷ ("status", string "completed")
      ∷ ("role", string "assistant")
      ∷ ("content", array (item part done))
      ∷ []) in
    if n.text_started
    then (
      typed "response.output_text.done" (
            ("item_id", string (message_id_of n))
            ∷ ("output_index", count_of 0)
            ∷ ("content_index", count_of 0)
            ∷ ("text", string n.output_text)
            ∷ [])
          ∷ typed "response.content_part.done" (
              ("item_id", string (message_id_of n))
              ∷ ("output_index", count_of 0)
              ∷ ("content_index", count_of 0)
              ∷ ("part", part)
              ∷ [])
          ∷ typed "response.output_item.done"
              (("output_index", count_of 0) ∷ ("item", message) ∷ [])
          ∷ [],
      message ∷ [],
    )
    else ([], [])

-- The events that end the tool calls, and their items.
unfoldable pub finished_calls : ToolCalls → List Output × List Value
unfolding json decimal
finished_calls [] = ([], [])
finished_calls ((index, t) ∷ ts) =
    let rest = finished_calls ts in
    let call_id = unwrap_or t.call_id ("call_" +ˢ decimal index) in
    let call = json (
      ("id", string call_id)
      ∷ ("type", string "function_call")
      ∷ ("status", string "completed")
      ∷ ("call_id", string call_id)
      ∷ ("name", string (unwrap_or t.name "unknown"))
      ∷ ("arguments", string t.arguments)
      ∷ []) in
    (
      typed "response.function_call_arguments.done" (
            ("item_id", string call_id)
            ∷ ("call_id", string call_id)
            ∷ ("output_index", count_of index)
            ∷ ("arguments", string t.arguments)
            ∷ [])
          ∷ typed "response.output_item.done"
              (("output_index", count_of index) ∷ ("item", call) ∷ [])
          ∷ rest.0,
      call ∷ rest.1,
    )

-- All that is written at the end of a response.
unfoldable pub closing_events : ResponsesSseNormalizer → List Output
unfolding finished_text finished_calls response_object json
closing_events n =
    let text = finished_text n in
    let calls = finished_calls n.tool_calls in
    let response = response_object n "completed" (text.1 ++ calls.1) in
    text.0 ++ (calls.0 ++ (typed "response.completed" (("response", response) ∷ []) ∷ []))

unfoldable pub finish_response : ResponsesSseNormalizer → Step
unfolding closing_events
finish_response n =
    let closed = record n { completed = true } in
    if n.completed then ([], n) else (closing_events closed, closed)

unfoldable pub tool_calls_of : Option Items → ResponsesSseNormalizer → Step
unfolding process_tool_call_deltas
tool_calls_of none n = ([], n)
tool_calls_of (some tool_calls) n = process_tool_call_deltas tool_calls n

unfoldable pub delta_events : Option Entries → ResponsesSseNormalizer → Step
unfolding text_delta tool_calls_of
delta_events none n = ([], n)
delta_events (some delta) n =
    and_step (text_delta (and_then (get_entry delta "content") as_str) n)
      (tool_calls_of (and_then (get_entry delta "tool_calls") as_array))

-- `finish_reason` is there and not null.
unfoldable pub finish_if : Option Value → ResponsesSseNormalizer → Step
unfolding finish_response
finish_if none n = ([], n)
finish_if (some null) n = ([], n)
finish_if (some reason) n = finish_response n

unfoldable pub process_choices : Items → ResponsesSseNormalizer → Step
unfolding delta_events finish_if
process_choices done n = ([], n)
process_choices (item choice rest) n =
    and_step
      (and_step (delta_events (and_then (get_field choice "delta") as_object) n)
        (finish_if (get_field choice "finish_reason")))
      (process_choices rest)

unfoldable pub choices_of : Option Items → ResponsesSseNormalizer → Step
unfolding process_choices
choices_of none n = ([], n)
choices_of (some choices) n = process_choices choices n

unfoldable pub process_chat_chunk : Value → ResponsesSseNormalizer → Step
unfolding set_chunk_metadata start_response_events choices_of
process_chat_chunk chunk n =
    and_step (start_response_events (set_chunk_metadata chunk n))
      (choices_of (and_then (get_field chunk "choices") as_array))

unfoldable pub handle_data : Value → ResponsesSseNormalizer → Step
unfolding apply_data_prologue process_chat_chunk
handle_data value n =
    let p =
      apply_data_prologue value n.pending_event_name n.usage n.diagnostics n.backend_model
        n.public_model in
    process_chat_chunk p.value (record n {
      pending_event_name = p.pending_event_name;
      usage = p.usage;
      diagnostics = p.diagnostics;
    })

unfoldable pub handle_frame : SseFrame → ResponsesSseNormalizer → Step
unfolding handle_data finish_response observe_event_name
handle_frame (event name line) n = (
  raw line ∷ [],
  record n { diagnostics = observe_event_name name n.diagnostics; pending_event_name = some name },
)
handle_frame (data_value value leading_space line) n = handle_data value n
handle_frame (data_unparseable line) n = (raw line ∷ [], record n { pending_event_name = none })
handle_frame (done_frame line) n =
    and_step (finish_response (record n { pending_event_name = none })) (λ m. (raw line ∷ [], m))
handle_frame (pass_through line) n = (raw line ∷ [], n)

unfoldable pub handle_frames : List SseFrame → ResponsesSseNormalizer → Step
unfolding handle_frame
handle_frames [] n = ([], n)
handle_frames (frame ∷ frames) n = and_step (handle_frame frame n) (handle_frames frames)

unfoldable pub push : JsonCodec → ResponsesSseNormalizer → Bytes → Step
unfolding handle_frames
push codec n chunk =
    let parsed = Sse.push codec n.parser chunk in
    handle_frames parsed.0 (record n { parser = parsed.1 })

unfoldable pub handle_last : Option SseFrame → ResponsesSseNormalizer → Step
unfolding handle_frame
handle_last none n = ([], n)
handle_last (some frame) n = handle_frame frame n

unfoldable pub finish : JsonCodec → ResponsesSseNormalizer → Step
unfolding handle_last finish_response
finish codec n =
    let parsed = Sse.finish codec n.parser in
    and_step (handle_last parsed.0 (record n { parser = parsed.1 })) finish_response
