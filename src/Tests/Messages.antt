-- ===== src/Tests/Messages.antt =====
-- A message of an Anthropic stream, rewritten at a concrete input.
use onair.Prelude.{
  and_step, false, map, and_then, same_bytes, if◌then◌else◌, ◌≡◌, refl, String, Option, [], ◌∷◌,
  ◌++◌, Bytes,
}
use onair.Core.Openai.Json.{as_str, get_field, Value, string, object, entry, end}
use onair.Core.Openai.Sse.{JsonCodec, newline, data_prefix}
use onair.Core.Openai.Sse
use onair.Core.Openai.AnthropicStream.{AnthropicSseNormalizer, new_anthropic, rewrite_model, push}
use onair.Core.Openai.ChatStream.Chunks.{ChatOutput}
use onair.Core.Openai.MessagesStream.{MessagesStep, new_messages}
use onair.Core.Openai.MessagesStream.Events

abbrev claude : AnthropicSseNormalizer
unfolding new_anthropic
claude = new_anthropic (Option.some "qwen") (Option.some "chat-model")

abbrev started : String → String → Value
started inner outer =
    object (
      entry "message" (object (entry "model" (string inner) end))
        (entry "model" (string outer) end))

both : rewrite_model claude (started "qwen" "qwen") ≡ started "chat-model" "chat-model"
unfolding rewrite_model claude
both = refl

inner_only : rewrite_model claude (started "qwen" "other") ≡ started "chat-model" "other"
unfolding rewrite_model claude
inner_only = refl

-- A codec that reads every text as the start of a message, and writes one byte.
abbrev message_codec : JsonCodec
message_codec = record {
  from_slice = λ bs. Option.some (started "qwen" "qwen");
  to_vec = λ v. b'2' ∷ [];
}

abbrev comment_line : Bytes
comment_line = b':' ∷ newline ∷ []

pushed :
    (push message_codec claude (comment_line ++ (data_prefix ++ (b'1' ∷ newline ∷ [])))).0
    ≡ comment_line ++ (data_prefix ++ (b'2' ∷ newline ∷ []))
unfolding push Sse.push claude
pushed = refl

-- A message of one text, whose stop is told twice.
abbrev text_event : Value
text_event = object (
    entry "delta" (object (entry "text" (string "hi") (entry "type" (string "text_delta") end)))
      (entry "type" (string "content_block_delta") end))

abbrev stop_event : Value
stop_event = object (entry "type" (string "message_stop") end)

abbrev events_codec : JsonCodec
events_codec = record {
  from_slice = λ bs. Option.some (
      if same_bytes bs (b'1' ∷ [])
      then started "qwen" "qwen"
      else if same_bytes bs (b'2' ∷ [])
      then text_event
      else stop_event);
  to_vec = λ v. b'0' ∷ [];
}

abbrev whole_message : Bytes
whole_message =
    data_prefix
    ++ (b'1' ∷ newline ∷ data_prefix)
    ++ (b'2' ∷ newline ∷ data_prefix)
    ++ (b'3' ∷ newline ∷ data_prefix)
    ++ (b'3' ∷ newline ∷ [])

abbrev as_chat : MessagesStep
as_chat =
    and_step
      (Events.push events_codec (new_messages (Option.some "qwen") (Option.some "chat-model") false)
        whole_message)
      (Events.finish events_codec)

abbrev shown_model : ChatOutput → Option String
shown_model (ChatOutput.sse_data v) = and_then (get_field v "model") as_str
shown_model ChatOutput.done_line = Option.none

-- The text, the finish reason and the end, under the name that the client knows.
converted :
    map shown_model as_chat.0
    ≡ Option.some "chat-model" ∷ Option.some "chat-model" ∷ Option.none ∷ []
unfolding new_messages Events.push Events.finish Sse.push Sse.finish
converted = refl
