-- ===== src/Core/Openai/Usage.antt =====
-- crates/onair-core/src/openai/response.rs: the token usage that a body reports.
pub mod Collect
use Prim.Native.String.{[], ◌∷◌}
use onair.Prelude.{
  ℕ, ◌+◌, ◌%◌, ◌^◌, zero, suc, Char, code, String, Bool, ◌&&◌, ◌||◌, Option, none, some, leb, ltb,
  eqb, is_empty, if◌then◌else◌, and_then, or_else, unwrap_or, StringSet, insert, extend, List, [],
  ◌∷◌,
}
use onair.Core.Sanitize.{take_chars}
use onair.Core.Openai.Json.{
  Value, Items, Entries, null, bool, number, string, array, object, done, item, end, entry, u64,
  as_object, as_u64, as_str, get_entry, get_field, insert_entry, update_entry,
}

-- `u64` addition: it wraps in a build without overflow checks.
unfoldable pub add_u64 : ℕ → ℕ → ℕ
add_u64 a b = (a + b) % 2 ^ 64

-- `u64::checked_add`
unfoldable pub checked_add : ℕ → ℕ → Option ℕ
checked_add a b = if ltb (a + b) (2 ^ 64) then some (a + b) else none

unfoldable pub number_field : Entries → String → Option ℕ
number_field es field = and_then (get_entry es field) as_u64

unfoldable pub nested_number_field : Entries → String → String → Option ℕ
unfolding number_field
nested_number_field es parent field =
    and_then (and_then (get_entry es parent) as_object) (λ inner. number_field inner field)

-- `is_ascii_alphanumeric() || matches!(character, '-' | '_' | '.' | ':')`
abbrev pub is_label_char : Char → Bool
is_label_char c =
    let n = code c in
    (leb b'0' n && leb n b'9')
    || (leb b'A' n && leb n b'Z')
    || (leb b'a' n && leb n b'z')
    || eqb n b'-'
    || eqb n b'_'
    || eqb n b'.'
    || eqb n b':'

-- `is_ascii_graphic`
abbrev pub is_graphic : Char → Bool
is_graphic c = leb 33 (code c) && leb (code c) 126

-- The characters that `filter_map` lets through, the graphic rest as '_'.
unfoldable pub label_chars : String → String
label_chars [] = []
label_chars (c ∷ s) =
    let rest = label_chars s in
    if is_label_char c then c ∷ rest else if is_graphic c then "_" ∷ rest else rest

unfoldable pub safe_diagnostic_label : String → Option String
unfolding label_chars take_chars
safe_diagnostic_label value =
    let label = take_chars 80 (label_chars value) in if is_empty label then none else some label

pub record UsageFields : Type 0 where
  pub input : ℕ
  pub output : ℕ
  pub cached : ℕ
  pub reasoning : ℕ
  pub total : ℕ

unfoldable pub usage_fields_from_object : Option Entries → UsageFields
unfolding number_field nested_number_field add_u64
usage_fields_from_object none = record {
  input = 0;
  output = 0;
  cached = 0;
  reasoning = 0;
  total = 0;
}
usage_fields_from_object (some usage) =
    let input =
      add_u64 (unwrap_or (number_field usage "prompt_tokens") 0)
        (unwrap_or (number_field usage "input_tokens") 0) in
    let output =
      add_u64 (unwrap_or (number_field usage "completion_tokens") 0)
        (unwrap_or (number_field usage "output_tokens") 0) in
    record {
      input = input;
      output = output;
      cached =
          unwrap_or
            (or_else (nested_number_field usage "prompt_tokens_details" "cached_tokens")
              (nested_number_field usage "input_tokens_details" "cached_tokens"))
            0;
      reasoning =
          unwrap_or
            (or_else (nested_number_field usage "completion_tokens_details" "reasoning_tokens")
              (nested_number_field usage "output_tokens_details" "reasoning_tokens"))
            0;
      total = unwrap_or (number_field usage "total_tokens") (add_u64 input output);
    }

pub record UsageTotals : Type 0 where
  pub input : ℕ
  pub cached_input : ℕ
  pub output : ℕ
  pub reasoning_output : ℕ
  pub total : ℕ

abbrev pub no_totals : UsageTotals
no_totals = record { input = 0; cached_input = 0; output = 0; reasoning_output = 0; total = 0 }

unfoldable pub add_totals : UsageTotals → UsageTotals → UsageTotals
unfolding add_u64
add_totals t o = record {
  input = add_u64 t.input o.input;
  cached_input = add_u64 t.cached_input o.cached_input;
  output = add_u64 t.output o.output;
  reasoning_output = add_u64 t.reasoning_output o.reasoning_output;
  total = add_u64 t.total o.total;
}

unfoldable pub add_usage_object : Entries → UsageTotals → UsageTotals
unfolding usage_fields_from_object add_u64
add_usage_object es t =
    let fields = usage_fields_from_object (some es) in
    record {
      input = add_u64 t.input fields.input;
      cached_input = add_u64 t.cached_input fields.cached;
      output = add_u64 t.output fields.output;
      reasoning_output = add_u64 t.reasoning_output fields.reasoning;
      total = add_u64 t.total fields.total;
    }

pub record UsageDiagnostics : Type 0 where
  pub usage_object_count : ℕ
  pub usage_keys : StringSet
  pub event_names : StringSet
  pub usage_event_names : StringSet

abbrev pub no_diagnostics : UsageDiagnostics
no_diagnostics = record {
  usage_object_count = 0;
  usage_keys = [];
  event_names = [];
  usage_event_names = [];
}

with_label : Option String → List String → List String
with_label none ls = ls
with_label (some l) ls = l ∷ ls

unfoldable pub labelled_keys : Entries → List String
unfolding with_label safe_diagnostic_label
labelled_keys end = []
labelled_keys (entry k v es) = with_label (safe_diagnostic_label k) (labelled_keys es)

unfoldable pub observe_object : Entries → UsageDiagnostics → UsageDiagnostics
unfolding labelled_keys add_u64 extend
observe_object es d = record d {
  usage_object_count = add_u64 d.usage_object_count 1;
  usage_keys = extend d.usage_keys (labelled_keys es);
}

insert_label : Option String → StringSet → StringSet
unfolding insert
insert_label none s = s
insert_label (some l) s = insert l s

unfoldable pub observe_event_name : String → UsageDiagnostics → UsageDiagnostics
unfolding insert_label safe_diagnostic_label
observe_event_name name d = record d {
  event_names = insert_label (safe_diagnostic_label name) d.event_names;
}

unfoldable pub observe_usage_event_name : String → UsageDiagnostics → UsageDiagnostics
unfolding insert_label safe_diagnostic_label
observe_usage_event_name name d = record d {
  usage_event_names = insert_label (safe_diagnostic_label name) d.usage_event_names;
}

unfoldable pub merge_diagnostics : UsageDiagnostics → UsageDiagnostics → UsageDiagnostics
unfolding add_u64 extend
merge_diagnostics d o = record {
  usage_object_count = add_u64 d.usage_object_count o.usage_object_count;
  usage_keys = extend d.usage_keys o.usage_keys;
  event_names = extend d.event_names o.event_names;
  usage_event_names = extend d.usage_event_names o.usage_event_names;
}

pub record UsageObservation : Type 0 where
  pub totals : UsageTotals
  pub diagnostics : UsageDiagnostics
