-- ===== src/Core/Openai/ChatStream/Parts.antt =====
-- How often a step of the chat stream writes its end, and what it says of it in its state.
use onair.Prelude.{
  and_step, ℕ, suc, ◌+◌, ◌≡◌, refl, ap, String, Bool, true, false, not, ◌||◌, ◌&&◌, if_cases,
  Option, none, some, and_then, map_option, List, [], ◌∷◌, ◌++◌, arith, is_empty,
}
use onair.Core.Openai.Json.{Value, Entries, as_str, get_entry, get_field}
use onair.Core.Openai.ChatStream.{
  ChatCompletionStreamToolCall, ChatCompletionsSseNormalizer, says,
  responses_message_content_to_chat_text, response_output_to_chat_message,
}
use onair.Core.Openai.ChatStream.Chunks.{
  ChatOutput, sse_data, done_line, ChatStep, chat_chunk, say_delta, say_text, store_call, state_at,
  announce_named, announce_tool_call_if_ready, arguments_chunk, update_call,
  process_function_arguments_delta, process_function_item, item_step, completed_call,
  completed_calls, completed_output, no_calls, emit_completed_output_if_needed,
}
use onair.Core.Openai.ChatStream.Events.{done_event}

-- The ends of the stream among what is written.
abbrev pub dones : List ChatOutput → ℕ
dones [] = 0
dones (sse_data v ∷ os) = dones os
dones (done_line ∷ os) = suc (dones os)

dones-append : (os ps : List ChatOutput) → dones (os ++ ps) ≡ dones os + dones ps
dones-append [] ps = omega arith
dones-append (sse_data v ∷ os) ps = dones-append os ps
dones-append (done_line ∷ os) ps = omega (arith, dones-append os ps)

abbrev pub flag : Bool → ℕ
flag false = 0
flag true = 1

-- A step ends the stream once, if at all, and says so in the state.
pub record Ends (n : ChatCompletionsSseNormalizer) (s : ChatStep) : Type 0 where
  pub ends : dones s.0 + flag n.done_sent ≡ flag s.1.done_sent

pub and_step-Ends :
    (n : ChatCompletionsSseNormalizer) (first : ChatStep)
    (next : ChatCompletionsSseNormalizer → ChatStep)
    → Ends n first
    → ((m : ChatCompletionsSseNormalizer) → Ends m (next m))
    → Ends n (and_step first next)
and_step-Ends n first next h k = record {
  ends = omega (arith, h.ends, (k first.1).ends, dones-append first.0 (next first.1).0);
}

pub quiet-Ends : (n : ChatCompletionsSseNormalizer) → Ends n ([], n)
quiet-Ends n = record { ends = omega arith }

say_delta-Ends :
    (field : String × Value) (n : ChatCompletionsSseNormalizer) → Ends n (say_delta field n)
unfolding say_delta chat_chunk
say_delta-Ends field n = record { ends = omega arith }

pub say_text-Ends : (o : Option String) (n : ChatCompletionsSseNormalizer) → Ends n (say_text o n)
unfolding say_text
say_text-Ends none n = quiet-Ends n
say_text-Ends (some text) n =
    if_cases (Ends n) (is_empty text) (λ t. quiet-Ends n)
      (λ f. record {
        ends = (say_delta-Ends ("content", Value.string text) (record n { text_sent = true })).ends;
      })

named-Ends :
    (index : ℕ) (o : Option String) (state : ChatCompletionStreamToolCall)
    (n : ChatCompletionsSseNormalizer)
    → Ends n (announce_named index o state n)
unfolding announce_named say_delta chat_chunk store_call
named-Ends index none state n = quiet-Ends n
named-Ends index (some name) state n = record { ends = omega arith }

announce-Ends :
    (index : ℕ) (n : ChatCompletionsSseNormalizer) → Ends n (announce_tool_call_if_ready index n)
unfolding announce_tool_call_if_ready
announce-Ends index n =
    let state = state_at index n in
    if_cases (Ends n) state.announced (λ t. quiet-Ends n) (λ f. named-Ends index state.name state n)

arguments-Ends :
    (index : ℕ) (arguments : String) (n : ChatCompletionsSseNormalizer)
    → Ends n (arguments_chunk index arguments n)
unfolding arguments_chunk chat_chunk
arguments-Ends index arguments n =
    if_cases (Ends n) (is_empty arguments) (λ t. quiet-Ends n) (λ f. record { ends = omega arith })

update-Ends :
    (index : ℕ) (state : ChatCompletionStreamToolCall) (arguments : String)
    (n : ChatCompletionsSseNormalizer)
    → Ends n (update_call index state arguments n)
unfolding update_call store_call
update-Ends index state arguments n = record {
  ends =
      (and_step-Ends (store_call index state n)
        (announce_tool_call_if_ready index (store_call index state n))
        (arguments_chunk index arguments) (announce-Ends index (store_call index state n))
        (arguments-Ends index arguments)).ends;
}

pub function_arguments-Ends :
    (v : Value) (n : ChatCompletionsSseNormalizer) → Ends n (process_function_arguments_delta v n)
unfolding process_function_arguments_delta
function_arguments-Ends v n = update-Ends _ _ _ n

pub item-Ends :
    (v : Value) (finished : Bool) (o : Option Entries) (n : ChatCompletionsSseNormalizer)
    → Ends n (item_step v finished o n)
unfolding item_step process_function_item
item-Ends v finished none n = quiet-Ends n
item-Ends v finished (some entries) n =
    let type_name = and_then (get_entry entries "type") as_str in
    let text = map_option responses_message_content_to_chat_text (get_entry entries "content") in
    if_cases (Ends n) (says type_name "function_call") (λ t. update-Ends _ _ _ n)
      (λ f.
        if_cases (Ends n) (says type_name "message" && finished && not n.text_sent)
          (λ t. say_text-Ends text n) (λ g. quiet-Ends n))

completed_calls-Ends :
    (index : ℕ) (calls : List Value) (n : ChatCompletionsSseNormalizer)
    → Ends n (completed_calls index calls n)
unfolding completed_calls completed_call
completed_calls-Ends index [] n = quiet-Ends n
completed_calls-Ends index (call ∷ calls) n =
    and_step-Ends n (completed_call index call n) (completed_calls (suc index) calls)
      (update-Ends _ _ _ n) (completed_calls-Ends (suc index) calls)

completed_output-Ends :
    (o : Option Value) (n : ChatCompletionsSseNormalizer) → Ends n (completed_output o n)
unfolding completed_output
completed_output-Ends none n = quiet-Ends n
completed_output-Ends (some response) n =
    let message = response_output_to_chat_message (get_field response "output") in
    and_step-Ends n (say_text (some message.0) n) (completed_calls 0 message.1)
      (say_text-Ends (some message.0) n) (completed_calls-Ends 0 message.1)

pub emit-Ends :
    (o : Option Value) (n : ChatCompletionsSseNormalizer)
    → Ends n (emit_completed_output_if_needed o n)
unfolding emit_completed_output_if_needed
emit-Ends o n =
    if_cases (Ends n) (n.text_sent || not (no_calls n.tool_calls)) (λ t. quiet-Ends n)
      (λ f. completed_output-Ends o n)

pub done_event-Ends : (n : ChatCompletionsSseNormalizer) → Ends n (done_event n)
unfolding done_event
done_event-Ends n = go n.done_sent refl
  where
    go : (b : Bool) → n.done_sent ≡ b → Ends n (done_event n)
    go true e = rw e (record { ends = omega arith })
    go false e = rw e (record { ends = omega (arith, ap flag e) })
