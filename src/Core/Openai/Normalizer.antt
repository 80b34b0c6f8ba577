-- ===== src/Core/Openai/Normalizer.antt =====
-- crates/onair-core/src/openai/response.rs: `SseNormalizer`, which rewrites the data of a stream.
pub mod Streams
use onair.Prelude.{
  ℕ, String, Bool, true, false, not, ◌&&◌, ltb, if◌then◌else◌, Option, none, some, and_then, List,
  [], ◌∷◌, ◌++◌, Bytes,
}
use onair.Core.Openai.Json.{Value}
use onair.Core.Openai.Usage.{
  UsageTotals, UsageDiagnostics, UsageObservation, no_totals, no_diagnostics, add_totals,
  merge_diagnostics, observe_event_name, observe_usage_event_name, safe_diagnostic_label,
}
use onair.Core.Openai.Usage.Collect.{extract_usage_observation, json_event_type}
use onair.Core.Openai.Rewrite.{
  rewrite_response_models, ensure_usage_total_tokens, chat_usage_only_chunk, remove_usage_field,
}
use onair.Core.Openai.Sse.{
  JsonCodec, SseFrame, event, data_value, data_unparseable, done_frame, pass_through, SseLineParser,
  new_parser, line_suffix, data_prefix, space,
}
use onair.Core.Openai.Sse

observe_if_some :
    (String → UsageDiagnostics → UsageDiagnostics)
    → Option String
    → UsageDiagnostics
    → UsageDiagnostics
observe_if_some observe none d = d
observe_if_some observe (some name) d = observe name d

rewrite_if_some : Option String → Option String → Value → Value
unfolding rewrite_response_models
rewrite_if_some (some backend_model) (some public_model) value =
    rewrite_response_models value backend_model public_model
rewrite_if_some _ _ value = value

-- What the prologue returns, and what it leaves in the places that it is given.
pub record DataPrologue : Type 0 where
  pub usage_object_count : ℕ
  pub value : Value
  pub pending_event_name : Option String
  pub usage : UsageTotals
  pub diagnostics : UsageDiagnostics

unfoldable pub apply_data_prologue :
    Value
    → Option String
    → UsageTotals
    → UsageDiagnostics
    → Option String
    → Option String
    → DataPrologue
unfolding observe_if_some rewrite_if_some extract_usage_observation json_event_type
    safe_diagnostic_label observe_event_name observe_usage_event_name add_totals merge_diagnostics
    ensure_usage_total_tokens
apply_data_prologue value pending_event_name usage diagnostics backend_model public_model =
    let observation = extract_usage_observation value in
    let count = observation.diagnostics.usage_object_count in
    let json_event_name = and_then (json_event_type value) safe_diagnostic_label in
    let named = observe_if_some observe_event_name json_event_name diagnostics in
    let used =
      observe_if_some observe_usage_event_name json_event_name
        (observe_if_some observe_usage_event_name pending_event_name named) in
    record {
      usage_object_count = count;
      value = ensure_usage_total_tokens (rewrite_if_some backend_model public_model value);
      pending_event_name = none;
      usage = add_totals usage observation.totals;
      diagnostics = merge_diagnostics (if ltb 0 count then used else named) observation.diagnostics;
    }

pub record SseNormalizer : Type 0 where
  pub parser : SseLineParser
  pub usage : UsageTotals
  pub diagnostics : UsageDiagnostics
  pub pending_event_name : Option String
  pub backend_model : Option String
  pub public_model : Option String
  pub emit_usage_to_client : Bool

unfoldable pub new_with_usage_visibility : Option String → Option String → Bool → SseNormalizer
new_with_usage_visibility backend_model public_model emit_usage_to_client = record {
  parser = new_parser;
  usage = no_totals;
  diagnostics = no_diagnostics;
  pending_event_name = none;
  backend_model = backend_model;
  public_model = public_model;
  emit_usage_to_client = emit_usage_to_client;
}

-- A data line in the form of the one that was read.
unfoldable pub data_line : JsonCodec → Value → Bool → Bytes → Bytes
unfolding line_suffix
data_line codec json leading_space line =
    let suffix = line_suffix line in
    data_prefix
    ++ ((if leading_space then space else []) ++ (codec.to_vec json ++ (suffix.0 ++ suffix.1)))

unfoldable pub handle_data :
    JsonCodec → Value → Bool → Bytes → SseNormalizer → Bytes × SseNormalizer
unfolding apply_data_prologue chat_usage_only_chunk remove_usage_field data_line
handle_data codec json leading_space line n =
    let p =
      apply_data_prologue json n.pending_event_name n.usage n.diagnostics n.backend_model
        n.public_model in
    let next = record n {
      pending_event_name = p.pending_event_name;
      usage = p.usage;
      diagnostics = p.diagnostics;
    } in
    let shown =
      if not n.emit_usage_to_client && ltb 0 p.usage_object_count
      then (if chat_usage_only_chunk p.value
          then []
          else data_line codec (remove_usage_field p.value) leading_space line)
      else data_line codec p.value leading_space line in
    (shown, next)

unfoldable pub handle_frame : JsonCodec → SseFrame → SseNormalizer → Bytes × SseNormalizer
unfolding handle_data observe_event_name
handle_frame codec (event name line) n = (
  line,
  record n { diagnostics = observe_event_name name n.diagnostics; pending_event_name = some name },
)
handle_frame codec (data_value value leading_space line) n =
    handle_data codec value leading_space line n
handle_frame codec (data_unparseable line) n = (line, record n { pending_event_name = none })
handle_frame codec (done_frame line) n = (line, record n { pending_event_name = none })
handle_frame codec (pass_through line) n = (line, n)

-- The loop over the frames of a call.
unfoldable pub handle_frames : JsonCodec → List SseFrame → SseNormalizer → Bytes × SseNormalizer
unfolding handle_frame
handle_frames codec [] n = ([], n)
handle_frames codec (frame ∷ frames) n =
    let now = handle_frame codec frame n in
    let later = handle_frames codec frames now.1 in (now.0 ++ later.0, later.1)

unfoldable pub push : JsonCodec → SseNormalizer → Bytes → Bytes × SseNormalizer
unfolding handle_frames
push codec n chunk =
    let parsed = Sse.push codec n.parser chunk in
    handle_frames codec parsed.0 (record n { parser = parsed.1 })

unfoldable pub handle_last : JsonCodec → Option SseFrame → SseNormalizer → Bytes × SseNormalizer
unfolding handle_frame
handle_last codec none n = ([], n)
handle_last codec (some frame) n = handle_frame codec frame n

unfoldable pub finish : JsonCodec → SseNormalizer → Bytes × SseNormalizer
unfolding handle_last
finish codec n =
    let parsed = Sse.finish codec n.parser in
    handle_last codec parsed.0 (record n { parser = parsed.1 })
