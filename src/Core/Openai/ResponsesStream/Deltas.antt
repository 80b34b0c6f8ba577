-- ===== src/Core/Openai/ResponsesStream/Deltas.antt =====
-- crates/onair-core/src/openai/response.rs: what `ResponsesSseNormalizer` makes of the beginning of
-- a response, of text and of tool calls.
use onair.Prelude.{
  and_step, ℕ, String, true, false, not, ◌&&◌, eqb, if◌then◌else◌, Option, none, some, and_then,
  or_else, unwrap_or, is_some, List, [], ◌∷◌, ◌++◌, length, ◌+ˢ◌, is_empty,
}
use onair.Core.Openai.Json.{
  Value, Items, Entries, string, array, done, item, as_str, as_object, as_u64, get_entry, get_field,
}
use onair.Core.Openai.ResponsesStream.{
  Output, typed, json, count_of, decimal, StreamToolCall, default_call, call_at, put_call,
  ResponsesSseNormalizer, response_id_from_chat, message_id_from_response, message_id_of,
  response_object,
}

-- What a step writes, with the normalizer that it leaves.
abbrev pub Step : Type 0
Step = List Output × ResponsesSseNormalizer

unfoldable pub set_chunk_metadata : Value → ResponsesSseNormalizer → ResponsesSseNormalizer
unfolding response_id_from_chat message_id_from_response
set_chunk_metadata chunk n =
    let chat_id = unwrap_or (and_then (get_field chunk "id") as_str) "chatcmpl_unknown" in
    let new_id = response_id_from_chat chat_id in
    record n {
      message_id =
          if is_some n.response_id then n.message_id else some (message_id_from_response new_id 0);
      response_id = or_else n.response_id (some new_id);
      created_at =
          if eqb n.created_at 0
          then unwrap_or (and_then (get_field chunk "created") as_u64) 0
          else n.created_at;
      model = or_else n.model (and_then (get_field chunk "model") as_str);
    }

unfoldable pub start_response_events : ResponsesSseNormalizer → Step
unfolding response_object json
start_response_events n =
    let started = record n { response_started = true } in
    let response = response_object started "in_progress" [] in
    if n.response_started then ([], n) else (
      typed "response.created" (("response", response) ∷ [])
          ∷ typed "response.in_progress" (("response", response) ∷ [])
          ∷ [],
      started,
    )

unfoldable pub start_text_events : ResponsesSseNormalizer → Step
unfolding json message_id_of
start_text_events n = if n.text_started then ([], n) else (
  typed "response.output_item.added" (
        ("output_index", count_of 0)
        ∷ (
          "item",
          json (
              ("id", string (message_id_of n))
              ∷ ("type", string "message")
              ∷ ("status", string "in_progress")
              ∷ ("role", string "assistant")
              ∷ ("content", array done)
              ∷ []),
        )
        ∷ [])
      ∷ typed "response.content_part.added" (
          ("item_id", string (message_id_of n))
          ∷ ("output_index", count_of 0)
          ∷ ("content_index", count_of 0)
          ∷ (
            "part",
            json (
                ("type", string "output_text")
                ∷ ("text", string "")
                ∷ ("annotations", array done)
                ∷ []),
          )
          ∷ [])
      ∷ [],
  record n { text_started = true },
)

unfoldable pub write_text : String → ResponsesSseNormalizer → Step
unfolding json message_id_of
write_text text n = (
  typed "response.output_text.delta" (
        ("item_id", string (message_id_of n))
        ∷ ("output_index", count_of 0)
        ∷ ("content_index", count_of 0)
        ∷ ("delta", string text)
        ∷ [])
      ∷ [],
  record n { output_text = n.output_text +ˢ text },
)

-- The text of a delta, if it is not empty.
unfoldable pub text_delta : Option String → ResponsesSseNormalizer → Step
unfolding start_text_events write_text
text_delta none n = ([], n)
text_delta (some text) n =
    if is_empty text then ([], n) else and_step (start_text_events n) (write_text text)

call_name : ℕ → String
unfolding decimal
call_name index = "call_" +ˢ decimal index

-- The announcement of a call that has its id and its name.
unfoldable pub added_event : ℕ → StreamToolCall → List Output × StreamToolCall
unfolding json
added_event index (t) = elim t.added [
  | true ↦ ([], t)
  | false ↦ elim t.call_id [
    | none ↦ ([], t)
    | some call_id ↦ elim t.name [
      | none ↦ ([], t)
      | some name ↦ (
        typed "response.output_item.added" (
              ("output_index", count_of index)
              ∷ (
                "item",
                json (
                    ("id", string call_id)
                    ∷ ("type", string "function_call")
                    ∷ ("status", string "in_progress")
                    ∷ ("call_id", string call_id)
                    ∷ ("name", string name)
                    ∷ ("arguments", string "")
                    ∷ []),
              )
              ∷ [])
            ∷ [],
        record t { added = true },
      )
    ]
  ]
]

unfoldable pub arguments_event : ℕ → Option String → StreamToolCall → List Output × StreamToolCall
unfolding json call_name
arguments_event index none t = ([], t)
arguments_event index (some arguments) t =
    let call_id = unwrap_or t.call_id (call_name index) in
    if is_empty arguments then ([], t) else (
      typed "response.function_call_arguments.delta" (
            ("item_id", string call_id)
            ∷ ("call_id", string call_id)
            ∷ ("output_index", count_of index)
            ∷ ("delta", string arguments)
            ∷ [])
          ∷ [],
      record t { call_id = some call_id; arguments = t.arguments +ˢ arguments },
    )

-- The name that a function gives to a call, and an id for a call with a name.
unfoldable pub named_call : ℕ → Entries → StreamToolCall → StreamToolCall
unfolding call_name
named_call index function t =
    let name = or_else (and_then (get_entry function "name") as_str) t.name in
    record t {
      name = name;
      call_id =
          if not (is_some t.call_id) && is_some name then some (call_name index) else t.call_id;
    }

unfoldable pub call_events : ℕ → Option String → StreamToolCall → List Output × StreamToolCall
unfolding added_event arguments_event
call_events index arguments t =
    let first = added_event index t in
    let second = arguments_event index arguments first.1 in (first.0 ++ second.0, second.1)

-- The function of a tool call: its name, its announcement and its arguments.
unfoldable pub function_events : ℕ → Option Entries → StreamToolCall → List Output × StreamToolCall
unfolding call_events named_call
function_events index none t = ([], t)
function_events index (some function) t =
    call_events index (and_then (get_entry function "arguments") as_str)
      (named_call index function t)

unfoldable pub tool_call_delta : Value → ResponsesSseNormalizer → Step
unfolding function_events call_at put_call
tool_call_delta tool_call n =
    let index = unwrap_or (and_then (get_field tool_call "index") as_u64) (length n.tool_calls) in
    let state = call_at default_call n.tool_calls index in
    let identified = record state {
      call_id = or_else state.call_id (and_then (get_field tool_call "id") as_str);
    } in
    let events =
      function_events index (and_then (get_field tool_call "function") as_object) identified in
    (events.0, record n { tool_calls = put_call index events.1 n.tool_calls })

unfoldable pub process_tool_call_deltas : Items → ResponsesSseNormalizer → Step
unfolding tool_call_delta
process_tool_call_deltas done n = ([], n)
process_tool_call_deltas (item tool_call rest) n =
    and_step (tool_call_delta tool_call n) (process_tool_call_deltas rest)
