-- ===== src/Core/Openai/ChatStream/Ends.antt =====
-- How often a chat stream made of a Responses stream is ended.
use onair.Prelude.{
  and_step, ◌≡◌, refl, ap, String, Bool, true, false, ◌||◌, if◌then◌else◌, if_cases, Option, none,
  some, and_then, List, [], ◌∷◌, Bytes, arith,
}
use onair.Core.Openai.Json.{Value, Entries, as_str, as_object, get_field}
use onair.Core.Openai.Normalizer.{apply_data_prologue}
use onair.Core.Openai.Sse.{
  JsonCodec, SseFrame, event, data_value, data_unparseable, done_frame, pass_through,
}
use onair.Core.Openai.Sse
use onair.Core.Openai.ChatStream.{ChatCompletionsSseNormalizer, says, new_chat}
use onair.Core.Openai.ChatStream.Chunks.{
  ChatOutput, ChatStep, chat_chunk, chat_usage_chunk, process_text_delta, process_output_item,
  emit_completed_output_if_needed,
}
use onair.Core.Openai.ChatStream.Events.{
  set_response_metadata, set_event_metadata, done_event, shown_usage, usage_chunks, finish_response,
  upstream_error_event, fail_response, type_step, process_response_event, handle_data, end_stream,
  handle_frame, handle_frames, push, handle_last, finish,
}
use onair.Core.Openai.ChatStream.Parts.{
  dones, flag, Ends, and_step-Ends, quiet-Ends, say_text-Ends, function_arguments-Ends, item-Ends,
  emit-Ends, done_event-Ends,
}

metadata-done :
    (o : Option Value) (n : ChatCompletionsSseNormalizer)
    → (set_response_metadata o n).done_sent ≡ n.done_sent
unfolding set_response_metadata
metadata-done none n = refl
metadata-done (some response) n = refl

usage-quiet : (o : Option Entries) (n : ChatCompletionsSseNormalizer) → dones (shown_usage o n) ≡ 0
unfolding shown_usage chat_usage_chunk
usage-quiet none n = refl
usage-quiet (some es) n =
    if_cases (λ (os : List ChatOutput). dones os ≡ 0) n.emit_usage_to_client (λ t. refl) (λ f. refl)

finish_response-Ends :
    (o : Option Value) (n : ChatCompletionsSseNormalizer) → Ends n (finish_response o n)
unfolding finish_response chat_chunk usage_chunks
finish_response-Ends o n =
    let closing = record n { completed = true } in
    if_cases (Ends n) n.completed (λ t. quiet-Ends n)
      (λ f. record {
        ends = omega (
          arith,
          usage-quiet (and_then (and_then o (λ r. get_field r "usage")) as_object)
              (set_response_metadata o closing),
          ap flag (metadata-done o closing),
        );
      })

fail-Ends : (o : Option Value) (n : ChatCompletionsSseNormalizer) → Ends n (fail_response o n)
unfolding fail_response upstream_error_event
fail-Ends o n =
    let closing = record n { completed = true } in
    let closed = set_response_metadata o closing in
    if_cases (Ends n) n.completed (λ t. quiet-Ends n)
      (λ f. record {
        ends = omega (arith, (done_event-Ends closed).ends, ap flag (metadata-done o closing));
      })

type-Ends :
    (name : Option String) (v : Value) (n : ChatCompletionsSseNormalizer)
    → Ends n (type_step name v n)
unfolding type_step process_text_delta process_output_item
type-Ends name v n =
    let response = get_field v "response" in
    if_cases (Ends n) (says name "response.output_text.delta")
      (λ t. say_text-Ends (and_then (get_field v "delta") as_str) n)
      (λ f.
        if_cases (Ends n) (says name "response.function_call_arguments.delta")
          (λ t. function_arguments-Ends v n)
          (λ f.
            if_cases (Ends n) (says name "response.output_item.added")
              (λ t. item-Ends v false (and_then (get_field v "item") as_object) n)
              (λ f.
                if_cases (Ends n) (says name "response.output_item.done")
                  (λ t. item-Ends v true (and_then (get_field v "item") as_object) n)
                  (λ f.
                    if_cases (Ends n)
                      (says name "response.completed" || says name "response.incomplete")
                      (λ t.
                        and_step-Ends n (emit_completed_output_if_needed response n)
                          (finish_response response) (emit-Ends response n)
                          (finish_response-Ends response))
                      (λ f.
                        if_cases (Ends n)
                          (says name "response.failed"
                            || says name "response.cancelled"
                            || says name "error")
                          (λ t. fail-Ends response n) (λ f. quiet-Ends n))))))

response_event-Ends :
    (v : Value) (n : ChatCompletionsSseNormalizer) → Ends n (process_response_event v n)
unfolding process_response_event set_event_metadata
response_event-Ends v n =
    let h = type-Ends (and_then (get_field v "type") as_str) v (set_event_metadata v n) in
    record { ends = omega (arith, h.ends, ap flag (metadata-done (get_field v "response") n)) }

end-Ends : (n : ChatCompletionsSseNormalizer) → Ends n (end_stream n)
unfolding end_stream
end-Ends n =
    and_step-Ends n (if n.completed then ([], n) else finish_response none n) done_event
      (if_cases (Ends n) n.completed (λ t. quiet-Ends n) (λ f. finish_response-Ends none n))
      done_event-Ends

frame-Ends : (frame : SseFrame) (n : ChatCompletionsSseNormalizer) → Ends n (handle_frame frame n)
unfolding handle_frame handle_data
frame-Ends (event name line) n = record { ends = omega arith }
frame-Ends (data_value value leading_space line) n =
    let p =
      apply_data_prologue value n.pending_event_name n.usage n.diagnostics n.backend_model
        n.public_model in
    record {
      ends =
          (response_event-Ends p.value (record n {
            pending_event_name = p.pending_event_name;
            usage = p.usage;
            diagnostics = p.diagnostics;
          })).ends;
    }
frame-Ends (data_unparseable line) n = record { ends = omega arith }
frame-Ends (done_frame line) n = record {
  ends = (end-Ends (record n { pending_event_name = none })).ends;
}
frame-Ends (pass_through line) n = quiet-Ends n

frames-Ends :
    (frames : List SseFrame) (n : ChatCompletionsSseNormalizer) → Ends n (handle_frames frames n)
unfolding handle_frames
frames-Ends [] n = quiet-Ends n
frames-Ends (frame ∷ frames) n =
    and_step-Ends n (handle_frame frame n) (handle_frames frames) (frame-Ends frame n)
      (frames-Ends frames)

push-Ends :
    (codec : JsonCodec) (chunk : Bytes) (n : ChatCompletionsSseNormalizer)
    → Ends n (push codec n chunk)
unfolding push
push-Ends codec chunk n =
    let parsed = Sse.push codec n.parser chunk in
    record { ends = (frames-Ends parsed.0 (record n { parser = parsed.1 })).ends }

-- The chunks of a stream, one call of `push` for each.
unfoldable pub feed_chat : JsonCodec → List Bytes → ChatCompletionsSseNormalizer → ChatStep
unfolding push
feed_chat codec [] n = ([], n)
feed_chat codec (chunk ∷ chunks) n = and_step (push codec n chunk) (feed_chat codec chunks)

feed-Ends :
    (codec : JsonCodec) (chunks : List Bytes) (n : ChatCompletionsSseNormalizer)
    → Ends n (feed_chat codec chunks n)
unfolding feed_chat
feed-Ends codec [] n = quiet-Ends n
feed-Ends codec (chunk ∷ chunks) n =
    and_step-Ends n (push codec n chunk) (feed_chat codec chunks) (push-Ends codec chunk n)
      (feed-Ends codec chunks)

last-Ends : (o : Option SseFrame) (n : ChatCompletionsSseNormalizer) → Ends n (handle_last o n)
unfolding handle_last
last-Ends none n = quiet-Ends n
last-Ends (some frame) n = frame-Ends frame n

finish-Ends : (codec : JsonCodec) (n : ChatCompletionsSseNormalizer) → Ends n (finish codec n)
unfolding finish
finish-Ends codec n =
    let parsed = Sse.finish codec n.parser in
    let m = record n { parser = parsed.1 } in
    record {
      ends =
          (and_step-Ends m (handle_last parsed.0 m) end_stream (last-Ends parsed.0 m)
            end-Ends).ends;
    }

done_event-done : (n : ChatCompletionsSseNormalizer) → (done_event n).1.done_sent ≡ true
unfolding done_event
done_event-done n = go n.done_sent refl
  where
    go : (b : Bool) → n.done_sent ≡ b → (done_event n).1.done_sent ≡ true
    go true e = rw e refl
    go false e = rw e refl

end-done : (n : ChatCompletionsSseNormalizer) → (end_stream n).1.done_sent ≡ true
unfolding end_stream
end-done n = done_event-done (if n.completed then ([], n) else finish_response none n).1

-- However a stream of the Responses interface is cut, whatever events it has and wherever it stops,
-- the chat stream made of it is ended exactly once.
pub stream-ends :
    (codec : JsonCodec) (backend_model public_model : Option String) (emit_usage_to_client : Bool)
    (chunks : List Bytes)
    → dones
        (and_step
          (feed_chat codec chunks (new_chat backend_model public_model emit_usage_to_client))
          (finish codec)).0
      ≡ 1
unfolding new_chat finish
stream-ends codec backend_model public_model emit_usage_to_client chunks =
    let n = new_chat backend_model public_model emit_usage_to_client in
    let fed = feed_chat codec chunks n in
    let all = and_step-Ends n fed (finish codec) (feed-Ends codec chunks n) (finish-Ends codec) in
    let parsed = Sse.finish codec fed.1.parser in
    let closes = end-done (handle_last parsed.0 (record fed.1 { parser = parsed.1 })).1 in
    omega (arith, all.ends, ap flag closes)
