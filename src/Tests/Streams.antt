-- ===== src/Tests/Streams.antt =====
-- An event stream cut in two ways, and the theorems on streams and bodies applied.
use onair.Prelude.{
  ◌==◌, ◌≡◌, ◌≢◌, refl, String, false, Option, List, [], ◌∷◌, ◌++◌, map, Bytes, same_bytes,
  if◌then◌else◌, from_utf8,
}
use onair.Core.Openai.Json.{Entries, Value, string, number, object, entry, end, u64}
use onair.Core.Openai.Usage.{no_totals}
use onair.Core.Openai.Rewrite.{rewrite_response_models, ensure_usage_total_tokens}
use onair.Core.Openai.Rewrite.Models.{HidesModel, rewrite_response_models-HidesModel}
use onair.Core.Openai.Rewrite.Totals.{
  key, value_at, count_at, total_of, ensure_usage_total_tokens-totals,
}
use onair.Core.Openai.Sse.{
  JsonCodec, SseFrame, SseLineParser, push, new_parser, newline, data_prefix, take_line,
}
use onair.Core.Openai.Sse
use onair.Core.Openai.Sse.Lines.{joined}
use onair.Core.Openai.Sse.Chunks.{read_stream, frame_line, read_stream-keeps}
use onair.Core.Openai.Normalizer.{new_with_usage_visibility, SseNormalizer}
use onair.Core.Openai.Normalizer.Streams.{
  normalize, with_parser, count_usage, normalize-cuts, normalize-counts,
}

abbrev body : Value
body = object (
    entry "model" (string "qwen") (
      entry "usage"
        (object
          (entry "completion_tokens" (number (u64 3)) (entry "prompt_tokens" (number (u64 4)) end)))
        end))

-- A codec that reads the one text `1` as that body.
abbrev codec : JsonCodec
codec = record {
  from_slice = λ bs. if same_bytes bs (b'1' ∷ []) then Option.some body else Option.none;
  to_vec = λ v. b'2' ∷ [];
}

abbrev line : Bytes
line = data_prefix ++ (b'1' ∷ newline ∷ [])

abbrev whole : List Bytes
whole = (line ++ line) ∷ []

abbrev cut : List Bytes
cut =
    data_prefix
    ∷ (b'1' ∷ newline ∷ b'd' ∷ [])
    ∷ (b'a' ∷ b't' ∷ b'a' ∷ b':' ∷ b'1' ∷ newline ∷ [])
    ∷ []

abbrev normalizer : SseNormalizer
unfolding new_with_usage_visibility
normalizer = new_with_usage_visibility (Option.some "qwen") (Option.some "chat-model") false

rewritten :
    rewrite_response_models body "qwen" "chat-model"
    ≡ object (
        entry "model" (string "chat-model") (
          entry "usage"
            (object (
              entry "completion_tokens"
                (number (u64 3))
                (entry "prompt_tokens" (number (u64 4)) end)))
            end))
unfolding rewrite_response_models
rewritten = refl

totalled :
    ensure_usage_total_tokens body
    ≡ object (
        entry "model" (string "qwen") (
          entry "usage"
            (object (
              entry "completion_tokens" (number (u64 3)) (
                entry "prompt_tokens"
                  (number (u64 4))
                  (entry "total_tokens" (number (u64 7)) end))))
            end))
unfolding ensure_usage_total_tokens
totalled = refl

counted :
    (normalize codec normalizer cut).1.usage
    ≡ record { input = 8; cached_input = 0; output = 6; reasoning_output = 0; total = 14 }
unfolding normalize push Sse.finish normalizer
counted = refl

passed : (normalize codec normalizer ((b'h' ∷ []) ∷ (newline ∷ []) ∷ [])).0 ≡ b'h' ∷ newline ∷ []
unfolding normalize push Sse.finish normalizer
passed = refl

decoded : from_utf8 (0x68 ∷ 0xc3 ∷ 0xa9 ∷ 0xe2 ∷ 0x82 ∷ 0xac ∷ []) ≡ Option.some "hé€"
unfolding from_utf8
decoded = refl

not_decoded : from_utf8 (0xed ∷ 0xa0 ∷ 0x80 ∷ []) ≡ Option.none
unfolding from_utf8
not_decoded = refl

normalize-cuts_example :
    normalize codec (with_parser new_parser normalizer) whole
    ≡ normalize codec (with_parser new_parser normalizer) cut
normalize-cuts_example = normalize-cuts codec normalizer whole cut refl

normalize-counts_example :
    (normalize codec
      (new_with_usage_visibility (Option.some "qwen") (Option.some "chat-model") false)
      cut).1.usage
    ≡ count_usage (read_stream codec cut) no_totals
normalize-counts_example =
    normalize-counts codec (Option.some "qwen") (Option.some "chat-model") false cut

read_stream-keeps_example : joined (map frame_line (read_stream codec cut)) ≡ joined cut
read_stream-keeps_example = read_stream-keeps codec cut

abbrev backend_name : String
backend_name = "qwen"

abbrev public_name : String
public_name = "chat-model"

different : backend_name ≢ public_name
different e = cc e

rewrite_response_models-HidesModel_example :
    HidesModel "qwen" (rewrite_response_models body "qwen" "chat-model")
rewrite_response_models-HidesModel_example =
    rewrite_response_models-HidesModel "qwen" "chat-model" body different

abbrev counts : Entries
counts = entry "completion_tokens" (number (u64 3)) (entry "prompt_tokens" (number (u64 4)) end)

ensure_usage_total_tokens-totals_example :
    (after : Entries) × (value_at (key "usage" ∷ []) (ensure_usage_total_tokens body)
      ≡ Option.some (object after))
    × ((field : String)
        → count_at after field
          ≡ (if "total_tokens" == field then total_of counts else count_at counts field))
ensure_usage_total_tokens-totals_example = ensure_usage_total_tokens-totals [] body counts tt refl

counts_total : total_of counts ≡ Option.some 7
counts_total = refl
