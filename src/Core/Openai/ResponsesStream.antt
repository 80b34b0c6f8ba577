-- ===== src/Core/Openai/ResponsesStream.antt =====
-- crates/onair-core/src/openai/response.rs: `ResponsesSseNormalizer`, which turns a stream of chat
-- chunks into the events of the Responses interface.
pub mod Deltas
pub mod Frames
pub mod Balance
pub mod Completion
use Prim.Native.Char.{char}
use Prim.Native.String.{[], ◌∷◌}
use onair.Prelude.{
  ℕ, zero, suc, ◌+◌, ◌/◌, ◌%◌, String, Bool, true, false, not, ◌&&◌, ltb, eqb, if◌then◌else◌,
  Option, none, some, and_then, map_option, or_else, unwrap_or, is_some, List, [], ◌∷◌, ◌++◌,
  length, Bytes, ◌+ˢ◌, is_empty, strip_prefix, from_u32,
}
use onair.Core.Openai.Json.{
  Value, Items, Entries, null, bool, number, string, array, object, done, item, end, entry, u64,
  as_str, as_object, as_array, as_u64, get_entry, get_field, insert_entry,
}
use onair.Core.Openai.Usage.{
  UsageTotals, UsageDiagnostics, add_u64, observe_event_name, no_totals, no_diagnostics,
}
use onair.Core.Openai.Normalizer.{apply_data_prologue}
use onair.Core.Openai.Sse.{
  JsonCodec, SseFrame, event, data_value, data_unparseable, done_frame, pass_through, SseLineParser,
  new_parser,
}
use onair.Core.Openai.Sse

-- What is written to the client: a line as it was read, or an event of the interface.
pub data Output : Type 0 where
  raw : Bytes → Output
  sse_event : (name : String) → (data_of : Value) → Output

digit : ℕ → String
unfolding from_u32
digit n = elim (from_u32 (48 + n)) [ none ↦ [] | some c ↦ c ∷ [] ]

decimal_within : ℕ → ℕ → String
unfolding digit
decimal_within zero n = digit n
decimal_within (suc fuel) n =
    let rest = decimal_within fuel (n / 10) in if ltb n 10 then digit n else rest +ˢ digit (n % 10)

-- The decimal digits of an index, as `format!` prints it.
unfoldable pub decimal : ℕ → String
unfolding decimal_within
decimal n = decimal_within n n

-- `json!({ ... })`
unfoldable pub json : List (String × Value) → Value
unfolding insert_entry
json fields = object (go fields)
  where
    go : List (String × Value) → Entries
    go [] = end
    go ((k, v) ∷ fs) = insert_entry k v (go fs)

abbrev pub json_items : List Value → Items
json_items [] = done
json_items (v ∷ vs) = item v (json_items vs)

-- An event whose data name it as their type.
abbrev pub typed : String → List (String × Value) → Output
typed name fields = sse_event name (json (("type", string name) ∷ fields))

pub record StreamToolCall : Type 0 where
  pub call_id : Option String
  pub name : Option String
  pub arguments : String
  pub added : Bool

abbrev pub default_call : StreamToolCall
default_call = record { call_id = none; name = none; arguments = []; added = false }

-- `BTreeMap<usize, StreamToolCall>`, in ascending order of the indices.
abbrev pub ToolCalls : Type 0
ToolCalls = List (ℕ × StreamToolCall)

-- `entry(index).or_default()`
unfoldable pub call_at : {T : Type 0} → T → List (ℕ × T) → ℕ → T
call_at default [] i = default
call_at default ((j, t) ∷ ts) i = if eqb i j then t else call_at default ts i

unfoldable pub put_call : {T : Type 0} → ℕ → T → List (ℕ × T) → List (ℕ × T)
put_call i t [] = (i, t) ∷ []
put_call i t ((j, u) ∷ ts) =
    let rest = put_call i t ts in
    if eqb i j then (i, t) ∷ ts else if ltb i j then (i, t) ∷ (j, u) ∷ ts else (j, u) ∷ rest

pub record ResponsesSseNormalizer : Type 0 where
  pub parser : SseLineParser
  pub usage : UsageTotals
  pub diagnostics : UsageDiagnostics
  pub pending_event_name : Option String
  pub backend_model : Option String
  pub public_model : Option String
  pub response_id : Option String
  pub message_id : Option String
  pub created_at : ℕ
  pub model : Option String
  pub response_started : Bool
  pub text_started : Bool
  pub output_text : String
  pub tool_calls : ToolCalls
  pub completed : Bool

unfoldable pub new_responses : Option String → Option String → ResponsesSseNormalizer
new_responses backend_model public_model = record {
  parser = new_parser;
  usage = no_totals;
  diagnostics = no_diagnostics;
  pending_event_name = none;
  backend_model = backend_model;
  public_model = public_model;
  response_id = none;
  message_id = none;
  created_at = 0;
  model = none;
  response_started = false;
  text_started = false;
  output_text = [];
  tool_calls = [];
  completed = false;
}

unfoldable pub response_id_from_chat : String → String
response_id_from_chat chat_id =
    if is_some (strip_prefix "resp_" chat_id) then chat_id else "resp_" +ˢ chat_id

unfoldable pub message_id_from_response : String → ℕ → String
unfolding decimal
message_id_from_response response_id index = "msg_" +ˢ response_id +ˢ "_" +ˢ decimal index

abbrev response_id_of : ResponsesSseNormalizer → String
response_id_of n = unwrap_or n.response_id "resp_unknown"

unfoldable pub message_id_of : ResponsesSseNormalizer → String
unfolding message_id_from_response
message_id_of n = unwrap_or n.message_id (message_id_from_response (response_id_of n) 0)

abbrev pub count_of : ℕ → Value
count_of k = number (u64 k)

unfoldable pub response_object : ResponsesSseNormalizer → String → List Value → Value
unfolding json add_u64
response_object n status output = json (
    ("id", string (response_id_of n))
    ∷ ("object", string "response")
    ∷ ("created_at", count_of n.created_at)
    ∷ ("status", string status)
    ∷ ("model", string (unwrap_or n.model "unknown"))
    ∷ ("output", array (json_items output))
    ∷ ("output_text", string n.output_text)
    ∷ (
      "usage",
      json (
          ("input_tokens", count_of n.usage.input)
          ∷ ("input_tokens_details", json (("cached_tokens", count_of n.usage.cached_input) ∷ []))
          ∷ ("output_tokens", count_of n.usage.output)
          ∷ (
            "output_tokens_details",
            json (("reasoning_tokens", count_of n.usage.reasoning_output) ∷ []),
          )
          ∷ (
            "total_tokens",
            count_of (
                if ltb 0 n.usage.total
                then n.usage.total
                else add_u64 n.usage.input n.usage.output),
          )
          ∷ []),
    )
    ∷ [])
