-- ===== src/Core/Config/Markers.antt =====
-- crates/onair-core/src/routing_markers.rs and compat.rs, and the marker sets of config.rs.
use onair.Prelude.{
  String, Bool, ◌||◌, not, List, [], ◌∷◌, ◌==◌, if◌then◌else◌, StringSet, contains, insert, remove,
}
use onair.Core.Config.Types.{UnknownMarkerPolicy, warn, error}
use onair.Core.Config.Result.{Result, ok, fail_if, unknown_marker, ◌>>◌}

abbrev pub responses_via_chat_completions : String
responses_via_chat_completions = "responses_via_chat_completions"

abbrev pub chat_completions_via_responses : String
chat_completions_via_responses = "chat_completions_via_responses"

abbrev pub chat_completions_via_messages : String
chat_completions_via_messages = "chat_completions_via_messages"

abbrev pub chat_via_messages_alias : String
chat_via_messages_alias = "chat_via_messages"

abbrev pub known_markers : List String
known_markers =
    "all" ∷ "streaming" ∷ "chat" ∷ "chat_completions" ∷ "completions" ∷ "messages" ∷ "responses"
    ∷ "response" ∷ "tools" ∷ "tool_calls" ∷ "function_calling" ∷ "functions"
    ∷ "responses_via_chat_completions" ∷ "chat_completions_via_responses"
    ∷ "chat_completions_via_messages" ∷ "embeddings" ∷ "embedding" ∷ "images" ∷ "image" ∷ "audio"
    ∷ "files" ∷ "file" ∷ "models" ∷ "model" ∷ "batches" ∷ "batch" ∷ "fine_tuning" ∷ "assistants"
    ∷ "assistant" ∷ "threads" ∷ "thread" ∷ "vector_stores" ∷ "vector_store" ∷ "uploads" ∷ "upload"
    ∷ []

unfoldable pub is_known_marker : String → Bool
is_known_marker value = contains known_markers value

unfoldable pub canonicalize_marker_set : StringSet → StringSet
canonicalize_marker_set markers =
    if contains markers chat_via_messages_alias
    then insert chat_completions_via_messages (remove chat_via_messages_alias markers)
    else markers

is_accepted : String → Bool
is_accepted value = is_known_marker value || value == chat_via_messages_alias

-- The policy `warn` only writes a log line.
unfoldable pub validate_markers : StringSet → UnknownMarkerPolicy → String → Result (Unit {0})
unfolding is_accepted
validate_markers [] policy location = ok tt
validate_markers (value ∷ values) warn location = validate_markers values warn location
validate_markers (value ∷ values) error location = do
  fail_if (not (is_accepted value)) (unknown_marker location value)
  validate_markers values error location
