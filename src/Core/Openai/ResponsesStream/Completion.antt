-- ===== src/Core/Openai/ResponsesStream/Completion.antt =====
-- How often a stream of the Responses interface is completed.
use onair.Prelude.{
  and_step, ◌≡◌, refl, ap, String, Bool, true, false, Option, none, some, and_then, List, [], ◌∷◌,
  Bytes, arith,
}
use onair.Core.Openai.Json.{
  Value, Items, Entries, null, bool, number, string, array, object, done, item, as_str, as_object,
  as_array, get_entry, get_field,
}
use onair.Core.Openai.Sse.{
  JsonCodec, SseFrame, event, data_value, data_unparseable, done_frame, pass_through, new_parser,
}
use onair.Core.Openai.Normalizer.{apply_data_prologue}
use onair.Core.Openai.Sse
use onair.Core.Openai.ResponsesStream.{raw, ResponsesSseNormalizer, new_responses}
use onair.Core.Openai.ResponsesStream.Deltas.{
  Step, set_chunk_metadata, start_response_events, text_delta,
}
use onair.Core.Openai.ResponsesStream.Frames.{
  finish_response, tool_calls_of, delta_events, finish_if, process_choices, choices_of,
  process_chat_chunk, handle_data, handle_frame, handle_frames, push, handle_last, finish,
}
use onair.Core.Openai.ResponsesStream.Balance.{
  completions, flag, Balanced, and_step-Balanced, start-Balanced, text-Balanced,
  tool_calls-Balanced, finish_response-Balanced, quiet-Balanced,
}

delta-Balanced : (o : Option Entries) (n : ResponsesSseNormalizer) → Balanced n (delta_events o n)
unfolding delta_events
delta-Balanced none n = quiet-Balanced n
delta-Balanced (some delta) n =
    let calls = and_then (get_entry delta "tool_calls") as_array in
    and_step-Balanced n (text_delta (and_then (get_entry delta "content") as_str) n)
      (tool_calls_of calls) (text-Balanced _ n) (calls-Balanced calls)
  where
    calls-Balanced :
        (vs : Option Items) (m : ResponsesSseNormalizer) → Balanced m (tool_calls_of vs m)
    calls-Balanced none m = quiet-Balanced m
    calls-Balanced (some vs) m = tool_calls-Balanced vs m

finish_if-Balanced : (o : Option Value) (n : ResponsesSseNormalizer) → Balanced n (finish_if o n)
unfolding finish_if
finish_if-Balanced none n = quiet-Balanced n
finish_if-Balanced (some null) n = quiet-Balanced n
finish_if-Balanced (some (bool b)) n = finish_response-Balanced n
finish_if-Balanced (some (number k)) n = finish_response-Balanced n
finish_if-Balanced (some (string s)) n = finish_response-Balanced n
finish_if-Balanced (some (array vs)) n = finish_response-Balanced n
finish_if-Balanced (some (object es)) n = finish_response-Balanced n

choices-Balanced : (vs : Items) (n : ResponsesSseNormalizer) → Balanced n (process_choices vs n)
unfolding process_choices
choices-Balanced done n = quiet-Balanced n
choices-Balanced (item choice rest) n =
    let delta = delta_events (and_then (get_field choice "delta") as_object) n in
    let reason = get_field choice "finish_reason" in
    and_step-Balanced n (and_step delta (finish_if reason)) (process_choices rest)
      (and_step-Balanced n delta (finish_if reason)
        (delta-Balanced (and_then (get_field choice "delta") as_object) n)
        (finish_if-Balanced reason))
      (choices-Balanced rest)

chunk-Balanced : (v : Value) (n : ResponsesSseNormalizer) → Balanced n (process_chat_chunk v n)
unfolding process_chat_chunk set_chunk_metadata choices_of
chunk-Balanced v n = record {
  balance =
      (and_step-Balanced (set_chunk_metadata v n) (start_response_events (set_chunk_metadata v n))
        (choices_of choices) (start-Balanced (set_chunk_metadata v n))
        (of-Balanced choices)).balance;
}
  where
    choices : Option Items
    choices = and_then (get_field v "choices") as_array

    of-Balanced : (o : Option Items) (m : ResponsesSseNormalizer) → Balanced m (choices_of o m)
    of-Balanced none m = quiet-Balanced m
    of-Balanced (some vs) m = choices-Balanced vs m

frame-Balanced : (frame : SseFrame) (n : ResponsesSseNormalizer) → Balanced n (handle_frame frame n)
unfolding handle_frame handle_data
frame-Balanced (event name line) n = record { balance = omega arith }
frame-Balanced (data_value value leading_space line) n =
    let p =
      apply_data_prologue value n.pending_event_name n.usage n.diagnostics n.backend_model
        n.public_model in
    record {
      balance =
          (chunk-Balanced p.value (record n {
            pending_event_name = p.pending_event_name;
            usage = p.usage;
            diagnostics = p.diagnostics;
          })).balance;
    }
frame-Balanced (data_unparseable line) n = record { balance = omega arith }
frame-Balanced (done_frame line) n = record {
  balance =
      (and_step-Balanced cleared (finish_response cleared) (λ m. (raw line ∷ [], m))
        (finish_response-Balanced cleared) (λ m. record { balance = omega arith })).balance;
}
  where
    cleared : ResponsesSseNormalizer
    cleared = record n { pending_event_name = none }
frame-Balanced (pass_through line) n = record { balance = omega arith }

frames-Balanced :
    (frames : List SseFrame) (n : ResponsesSseNormalizer) → Balanced n (handle_frames frames n)
unfolding handle_frames
frames-Balanced [] n = quiet-Balanced n
frames-Balanced (frame ∷ frames) n =
    and_step-Balanced n (handle_frame frame n) (handle_frames frames) (frame-Balanced frame n)
      (frames-Balanced frames)

push-Balanced :
    (codec : JsonCodec) (chunk : Bytes) (n : ResponsesSseNormalizer)
    → Balanced n (push codec n chunk)
unfolding push
push-Balanced codec chunk n =
    let parsed = Sse.push codec n.parser chunk in
    record { balance = (frames-Balanced parsed.0 (record n { parser = parsed.1 })).balance }

-- The chunks of a stream, one call of `push` for each, and the end.
unfoldable pub feed : JsonCodec → List Bytes → ResponsesSseNormalizer → Step
unfolding push
feed codec [] n = ([], n)
feed codec (chunk ∷ chunks) n = and_step (push codec n chunk) (feed codec chunks)

feed-Balanced :
    (codec : JsonCodec) (chunks : List Bytes) (n : ResponsesSseNormalizer)
    → Balanced n (feed codec chunks n)
unfolding feed
feed-Balanced codec [] n = quiet-Balanced n
feed-Balanced codec (chunk ∷ chunks) n =
    and_step-Balanced n (push codec n chunk) (feed codec chunks) (push-Balanced codec chunk n)
      (feed-Balanced codec chunks)

finish-Balanced : (codec : JsonCodec) (n : ResponsesSseNormalizer) → Balanced n (finish codec n)
unfolding finish handle_last
finish-Balanced codec n = record {
  balance =
      (and_step-Balanced (record n { parser = parsed.1 })
        (handle_last parsed.0 (record n { parser = parsed.1 })) finish_response
        (last-Balanced parsed.0 (record n { parser = parsed.1 })) finish_response-Balanced).balance;
}
  where
    parsed : Option SseFrame × Sse.SseLineParser
    parsed = Sse.finish codec n.parser

    last-Balanced :
        (o : Option SseFrame) (m : ResponsesSseNormalizer) → Balanced m (handle_last o m)
    last-Balanced none m = quiet-Balanced m
    last-Balanced (some frame) m = frame-Balanced frame m

finish_response-closes : (n : ResponsesSseNormalizer) → (finish_response n).1.completed ≡ true
unfolding finish_response
finish_response-closes n = go n.completed refl
  where
    go : (b : Bool) → n.completed ≡ b → (finish_response n).1.completed ≡ true
    go true e = rw e refl
    go false e = rw e refl

-- However a chat stream is cut and wherever it ends, exactly one of the events that the normalizer
-- makes of it is `response.completed`; lines that it passes on as they are do not count.
pub stream-completes :
    (codec : JsonCodec) (backend_model public_model : Option String) (chunks : List Bytes)
    → completions
        (and_step (feed codec chunks (new_responses backend_model public_model)) (finish codec)).0
      ≡ 1
unfolding new_responses finish
stream-completes codec backend_model public_model chunks =
    let n = new_responses backend_model public_model in
    let fed = feed codec chunks n in
    let all =
      and_step-Balanced n fed (finish codec) (feed-Balanced codec chunks n)
        (finish-Balanced codec) in
    let parsed = Sse.finish codec fed.1.parser in
    let closes =
      finish_response-closes (handle_last parsed.0 (record fed.1 { parser = parsed.1 })).1 in
    omega (arith, all.balance, ap flag closes)
