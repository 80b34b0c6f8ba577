-- ===== src/Core/Openai/AnthropicStream.antt =====
-- crates/onair-core/src/openai/response.rs: `AnthropicSseNormalizer`, which passes a stream of
-- Anthropic messages on and hides the model of the backend.
use onair.Prelude.{
  String, Option, none, some, and_then, ◌==◌, if◌then◌else◌, List, [], ◌∷◌, ◌++◌, Bytes,
}
use onair.Core.Openai.Json.{
  Value, Entries, string, object, as_str, get_entry, insert_entry, update_entry,
}
use onair.Core.Openai.Sse.{
  JsonCodec, SseFrame, event, data_value, data_unparseable, done_frame, pass_through, SseLineParser,
  new_parser,
}
use onair.Core.Openai.Sse
use onair.Core.Openai.Normalizer.{data_line}

pub record AnthropicSseNormalizer : Type 0 where
  pub parser : SseLineParser
  pub backend_model : Option String
  pub public_model : Option String
  pub pending_event_name : Option String

unfoldable pub new_anthropic : Option String → Option String → AnthropicSseNormalizer
new_anthropic backend_model public_model = record {
  parser = new_parser;
  backend_model = backend_model;
  public_model = public_model;
  pending_event_name = none;
}

-- `model`, if it names the backend's.
rewrite_entry : String → String → Entries → Entries
unfolding insert_entry
rewrite_entry backend public es = elim (and_then (get_entry es "model") as_str) [
  | none ↦ es
  | some model ↦ if model == backend then insert_entry "model" (string public) es else es
]

rewrite_message : String → String → Value → Value
unfolding rewrite_entry
rewrite_message backend public (object es) = object (rewrite_entry backend public es)
rewrite_message backend public v = v

rewrite_names : Option String → Option String → Value → Value
unfolding rewrite_entry rewrite_message
rewrite_names (some backend) (some public) (object es) =
    object
      (update_entry "message" (rewrite_message backend public) (rewrite_entry backend public es))
rewrite_names _ _ v = v

unfoldable pub rewrite_model : AnthropicSseNormalizer → Value → Value
unfolding rewrite_names
rewrite_model n v = rewrite_names n.backend_model n.public_model v

unfoldable pub handle_frame :
    JsonCodec → SseFrame → AnthropicSseNormalizer → Bytes × AnthropicSseNormalizer
unfolding rewrite_model data_line
handle_frame codec (event name line) n = (line, record n { pending_event_name = some name })
handle_frame codec (data_value value leading_space line) n = (
  data_line codec (rewrite_model n value) leading_space line,
  record n { pending_event_name = none },
)
handle_frame codec (data_unparseable line) n = (line, record n { pending_event_name = none })
handle_frame codec (done_frame line) n = (line, record n { pending_event_name = none })
handle_frame codec (pass_through line) n = (line, n)

unfoldable pub handle_frames :
    JsonCodec → List SseFrame → AnthropicSseNormalizer → Bytes × AnthropicSseNormalizer
unfolding handle_frame
handle_frames codec [] n = ([], n)
handle_frames codec (frame ∷ frames) n =
    let now = handle_frame codec frame n in
    let later = handle_frames codec frames now.1 in (now.0 ++ later.0, later.1)

unfoldable pub push : JsonCodec → AnthropicSseNormalizer → Bytes → Bytes × AnthropicSseNormalizer
unfolding handle_frames
push codec n chunk =
    let parsed = Sse.push codec n.parser chunk in
    handle_frames codec parsed.0 (record n { parser = parsed.1 })

unfoldable pub handle_last :
    JsonCodec → Option SseFrame → AnthropicSseNormalizer → Bytes × AnthropicSseNormalizer
unfolding handle_frame
handle_last codec none n = ([], n)
handle_last codec (some frame) n = handle_frame codec frame n

unfoldable pub finish : JsonCodec → AnthropicSseNormalizer → Bytes × AnthropicSseNormalizer
unfolding handle_last
finish codec n =
    let parsed = Sse.finish codec n.parser in
    handle_last codec parsed.0 (record n { parser = parsed.1 })
