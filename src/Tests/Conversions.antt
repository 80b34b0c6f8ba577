-- ===== src/Tests/Conversions.antt =====
-- Streams converted between the Responses and the chat interface, and the theorems applied to them.
use onair.Prelude.{
  and_step, and_then, ◌==◌, ◌≡◌, refl, String, Bool, true, false, Option, List, [], ◌∷◌, ◌++◌, map,
  Bytes, same_bytes, if◌then◌else◌,
}
use onair.Core.Openai.Json.{
  Value, Items, item, string, number, object, array, entry, end, u64, get_field,
}
use onair.Core.Openai.Sse.{
  JsonCodec, SseFrame, SseLineParser, push, new_parser, newline, data_prefix, take_line,
}
use onair.Core.Openai.Sse
use onair.Core.Openai.ResponsesStream.{Output, new_responses}
use onair.Core.Openai.ResponsesStream.Deltas
use onair.Core.Openai.ResponsesStream.Frames
use onair.Core.Openai.ResponsesStream.Balance.{completions}
use onair.Core.Openai.ResponsesStream.Completion.{feed, stream-completes}
use onair.Core.Openai.ChatStream.{new_chat}
use onair.Core.Openai.ChatStream.Chunks.{ChatOutput, ChatStep}
use onair.Core.Openai.ChatStream.Events
use onair.Core.Openai.ChatStream.Parts.{dones}
use onair.Core.Openai.ChatStream.Ends.{feed_chat, stream-ends}

abbrev one_line : Bytes
one_line = data_prefix ++ (b'1' ∷ newline ∷ [])

abbrev backend_name : String
backend_name = "qwen"

abbrev public_name : String
public_name = "chat-model"

-- A chunk of a chat stream that ends its only choice, and the chunk after it that tells the usage.
abbrev last_words : Value
last_words = object (
    entry "choices"
      (array (
        item
          (object (
            entry "delta" (object (entry "content" (string "hello") end))
              (entry "finish_reason" (string "stop") end)))
          Items.done))
      end)

abbrev told_usage : Value
told_usage = object (
    entry "choices" (array Items.done)
      (entry "usage" (object (entry "prompt_tokens" (number (u64 4)) end)) end))

abbrev chat_codec : JsonCodec
chat_codec = record {
  from_slice =
      λ bs. if same_bytes bs (b'1' ∷ []) then Option.some last_words else Option.some told_usage;
  to_vec = λ v. b'2' ∷ [];
}

abbrev two_chunks : List Bytes
two_chunks = (one_line ++ (data_prefix ++ (b'2' ∷ newline ∷ []))) ∷ []

abbrev answered_chat : Deltas.Step
answered_chat =
    and_step
      (feed chat_codec two_chunks (new_responses (Option.some "qwen") (Option.some "chat-model")))
      (Frames.finish chat_codec)

abbrev completed_input : List Output → Option Value
completed_input [] = Option.none
completed_input (Output.raw l ∷ os) = completed_input os
completed_input (Output.sse_event name v ∷ os) =
    let rest = completed_input os in
    if name == "response.completed"
    then and_then (and_then (get_field v "response") (λ r. get_field r "usage"))
        (λ u. get_field u "input_tokens")
    else rest

-- The usage counts, but the completed response was written before it came.
completed_early : completed_input answered_chat.0 ≡ Option.some (number (u64 0))
unfolding feed new_responses Frames.push Frames.finish Sse.push Sse.finish
completed_early = refl

counted_late : answered_chat.1.usage.input ≡ 4
unfolding feed new_responses Frames.push Frames.finish Sse.push Sse.finish
counted_late = refl

stream-completes_example :
    completions
      (and_step
        (feed chat_codec two_chunks
          (new_responses (Option.some backend_name) (Option.some public_name)))
        (Frames.finish chat_codec)).0
    ≡ 1
stream-completes_example =
    stream-completes chat_codec (Option.some backend_name) (Option.some public_name) two_chunks

-- A response that fails, and text that comes after it.
abbrev failed_event : Value
failed_event = object (entry "type" (string "response.failed") end)

abbrev late_text : Value
late_text =
    object (entry "delta" (string "late") (entry "type" (string "response.output_text.delta") end))

abbrev responses_codec : JsonCodec
responses_codec = record {
  from_slice =
      λ bs. if same_bytes bs (b'1' ∷ []) then Option.some failed_event else Option.some late_text;
  to_vec = λ v. b'2' ∷ [];
}

abbrev failed_chat : ChatStep
failed_chat =
    and_step
      (feed_chat responses_codec two_chunks
        (new_chat (Option.some "qwen") (Option.some "chat-model") false))
      (Events.finish responses_codec)

abbrev is_end : ChatOutput → Bool
is_end (ChatOutput.sse_data v) = false
is_end ChatOutput.done_line = true

-- The error, the end, and a chunk after the end.
ended_early : map is_end failed_chat.0 ≡ false ∷ true ∷ false ∷ []
unfolding feed_chat new_chat Events.push Events.finish Sse.push Sse.finish
ended_early = refl

stream-ends_example :
    dones
      (and_step
        (feed_chat responses_codec two_chunks
          (new_chat (Option.some backend_name) (Option.some public_name) false))
        (Events.finish responses_codec)).0
    ≡ 1
stream-ends_example =
    stream-ends responses_codec (Option.some backend_name) (Option.some public_name) false
      two_chunks
