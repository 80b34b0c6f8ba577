-- ===== src/Core/Openai/Sse.antt =====
-- crates/onair-core/src/openai/response.rs: the splitting of an event stream into frames.
pub mod Lines
pub mod Chunks
use onair.Prelude.{
  ℕ, zero, suc, String, Bool, true, false, Option, none, some, and_then, unwrap_or, map_option,
  is_some, eqb, if◌then◌else◌, List, [], ◌∷◌, ◌++◌, map, length, trim, Bytes, strip_prefix_bytes,
  same_bytes, ends_with, strip_last, from_utf8,
}
use onair.Core.Openai.Json.{Value}
use onair.Core.Openai.Usage.{safe_diagnostic_label}

-- What the program calls of `serde_json`: the parser of a value and the serializer.
pub record JsonCodec : Type 0 where
  pub from_slice : Bytes → Option Value
  pub to_vec : Value → Bytes

abbrev pub newline : ℕ
newline = b'\n'

abbrev pub carriage_return : ℕ
carriage_return = b'\r'

abbrev pub data_prefix : Bytes
data_prefix = b'd' ∷ b'a' ∷ b't' ∷ b'a' ∷ b':' ∷ []

abbrev pub event_prefix : Bytes
event_prefix = b'e' ∷ b'v' ∷ b'e' ∷ b'n' ∷ b't' ∷ b':' ∷ []

abbrev pub space : Bytes
space = b' ' ∷ []

abbrev pub done_marker : Bytes
done_marker = b'[' ∷ b'D' ∷ b'O' ∷ b'N' ∷ b'E' ∷ b']' ∷ []

unfoldable pub sse_field_value : Bytes → Bytes → Option Bytes
unfolding strip_prefix_bytes
sse_field_value line prefix =
    map_option (λ (v : Bytes). unwrap_or (strip_prefix_bytes space v) v)
      (strip_prefix_bytes prefix line)

unfoldable pub utf8_field_value : Bytes → Bytes → Option String
unfolding sse_field_value from_utf8 trim safe_diagnostic_label
utf8_field_value line prefix =
    and_then (and_then (sse_field_value line prefix) from_utf8)
      (λ s. safe_diagnostic_label (trim s))

pub data SseFrame : Type 0 where
  event : (name : String) → (line : Bytes) → SseFrame
  data_value : (value : Value) → (leading_space : Bool) → (line : Bytes) → SseFrame
  data_unparseable : (line : Bytes) → SseFrame
  done_frame : (line : Bytes) → SseFrame
  pass_through : (line : Bytes) → SseFrame

unfoldable pub line_without_cr : Bytes → Bytes
unfolding strip_last
line_without_cr line = strip_last (strip_last line newline) carriage_return

-- `strip_prefix(b"data:").is_some_and(|data| data.starts_with(b" "))`
starts_with_space : Bytes → Bool
unfolding strip_prefix_bytes
starts_with_space line =
    is_some (and_then (strip_prefix_bytes data_prefix line) (strip_prefix_bytes space))

parsed_data : Option Value → Bool → Bytes → SseFrame
parsed_data none leading_space line = data_unparseable line
parsed_data (some value) leading_space line = data_value value leading_space line

unfoldable pub parse_sse_line : JsonCodec → Bytes → SseFrame
unfolding line_without_cr utf8_field_value sse_field_value starts_with_space parsed_data same_bytes
parse_sse_line codec line = elim (utf8_field_value (line_without_cr line) event_prefix) [
  | some name ↦ event name line
  | none ↦ elim (sse_field_value (line_without_cr line) data_prefix) [
    | none ↦ pass_through line
    | some value ↦
        if same_bytes value done_marker
        then done_frame line
        else parsed_data (codec.from_slice value) (starts_with_space (line_without_cr line)) line
  ]
]

pub record SseLineParser : Type 0 where
  pub pending : Bytes

abbrev pub new_parser : SseLineParser
new_parser = record { pending = [] }

-- `position(newline)` and `drain(..=position)`: the first line with its end, and what remains.
unfoldable pub take_line : Bytes → Option (Bytes × Bytes)
take_line [] = none
take_line (b ∷ bs) =
    let later = map_option (λ (p : Bytes × Bytes). (b ∷ p.0, p.1)) (take_line bs) in
    if eqb b newline then some (b ∷ [], bs) else later

-- The loop of `push`: a turn for each line, and no more turns than there are bytes.
unfoldable pub drain_lines : ℕ → Bytes → List Bytes × Bytes
unfolding take_line
drain_lines zero pending = ([], pending)
drain_lines (suc n) pending = elim (take_line pending) [
  | none ↦ ([], pending)
  | some p ↦ let rest = drain_lines n p.1 in (p.0 ∷ rest.0, rest.1)
]

unfoldable pub push : JsonCodec → SseLineParser → Bytes → List SseFrame × SseLineParser
unfolding drain_lines parse_sse_line
push codec parser chunk =
    let extended = parser.pending ++ chunk in
    let drained = drain_lines (length extended) extended in
    (map (parse_sse_line codec) drained.0, record { pending = drained.1 })

unfoldable pub left_over : JsonCodec → Bytes → Option SseFrame
unfolding parse_sse_line
left_over codec [] = none
left_over codec (b ∷ bs) = some (parse_sse_line codec (b ∷ bs))

unfoldable pub finish : JsonCodec → SseLineParser → Option SseFrame × SseLineParser
unfolding left_over
finish codec parser = (left_over codec parser.pending, new_parser)

-- `line_suffix`: the carriage return and the newline that a line ends with.
unfoldable pub line_suffix : Bytes → Bytes × Bytes
unfolding ends_with strip_last
line_suffix line =
    let line_ending = if ends_with line newline then newline ∷ [] else [] in
    let without = strip_last line newline in
    (if ends_with without carriage_return then carriage_return ∷ [] else [], line_ending)
