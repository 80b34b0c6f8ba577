-- ===== src/Core/Openai/Rewrite.antt =====
-- crates/onair-core/src/openai/response.rs: the changes made to a body before the client sees it.
pub mod Models
pub mod Totals
use onair.Prelude.{
  ℕ, Bool, true, false, not, ◌&&◌, String, Option, none, some, is_some, or_else, and_then,
  if◌then◌else◌, ◌==◌,
}
use onair.Core.Openai.Json.{
  Value, Items, Entries, null, bool, number, string, array, object, done, item, end, entry, u64,
  as_object, as_str, as_array, get_entry, get_field, insert_entry, update_entry, remove_entry,
}
use onair.Core.Openai.Usage.{checked_add, number_field}

-- `key == "model" && value.as_str() == Some(backend_model)`
unfoldable pub names_model : String → Value → String → Bool
names_model k (string s) model = k == "model" && s == model
names_model k _ model = false

unfoldable mutual
  unfolding names_model

  pub rewrite_response_models : Value → String → String → Value
  rewrite_response_models (object es) backend_model public_model =
      object (rewrite_entries es backend_model public_model)
  rewrite_response_models (array vs) backend_model public_model =
      array (rewrite_items vs backend_model public_model)
  rewrite_response_models v backend_model public_model = v

  pub rewrite_items : Items → String → String → Items
  rewrite_items done backend_model public_model = done
  rewrite_items (item v vs) backend_model public_model =
      item (rewrite_response_models v backend_model public_model)
        (rewrite_items vs backend_model public_model)

  pub rewrite_entries : Entries → String → String → Entries
  rewrite_entries end backend_model public_model = end
  rewrite_entries (entry k v es) backend_model public_model =
      let below = rewrite_response_models v backend_model public_model in
      entry k (if names_model k v backend_model then string public_model else below)
        (rewrite_entries es backend_model public_model)

-- Nothing where a total stands, or else the sum of the counts if both are there and it fits.
unfoldable pub lacked : Option ℕ → Option ℕ → Option ℕ → Option ℕ
unfolding checked_add
lacked (some total) input_tokens output_tokens = none
lacked none (some i) (some o) = checked_add i o
lacked none _ _ = none

-- The total that the usage object lacks and that its counts give.
unfoldable pub missing_total : Entries → Option ℕ
unfolding lacked number_field
missing_total usage =
    lacked (number_field usage "total_tokens")
      (or_else (number_field usage "prompt_tokens") (number_field usage "input_tokens"))
      (or_else (number_field usage "completion_tokens") (number_field usage "output_tokens"))

unfoldable pub insert_total : Option ℕ → Entries → Entries
unfolding insert_entry
insert_total none usage = usage
insert_total (some total) usage = insert_entry "total_tokens" (number (u64 total)) usage

-- A usage object has its total read before the walk goes into it and inserted after: the walk
-- leaves the inserted number as it is, so this is the insertion that the source makes first.
unfoldable mutual
  unfolding missing_total insert_total

  pub ensure_value : Bool → Value → Value
  ensure_value in_usage (object es) =
      let total = if in_usage then missing_total es else none in
      object (insert_total total (ensure_entries es))
  ensure_value in_usage (array vs) = array (ensure_items vs)
  ensure_value in_usage v = v

  pub ensure_items : Items → Items
  ensure_items done = done
  ensure_items (item v vs) = item (ensure_value false v) (ensure_items vs)

  pub ensure_entries : Entries → Entries
  ensure_entries end = end
  ensure_entries (entry k v es) = entry k (ensure_value (k == "usage") v) (ensure_entries es)

unfoldable pub ensure_usage_total_tokens : Value → Value
unfolding ensure_value
ensure_usage_total_tokens v = ensure_value false v

is_empty_array : Option Items → Bool
is_empty_array (some done) = true
is_empty_array _ = false

-- `value.get("usage").is_some()` and an empty `choices` array
unfoldable pub chat_usage_only_chunk : Value → Bool
unfolding is_empty_array
chat_usage_only_chunk v =
    is_some (get_field v "usage") && is_empty_array (and_then (get_field v "choices") as_array)

unfoldable pub remove_usage_field : Value → Value
remove_usage_field (object es) = object (remove_entry "usage" es)
remove_usage_field v = v
