-- ===== src/Core/Openai/Usage/Collect.antt =====
-- crates/onair-core/src/openai/response.rs: the walk that adds up the usage objects of a body.
use onair.Prelude.{Option, none, some, or_else, and_then, ◌&&◌, Bool, String, eqb}
use onair.Core.Openai.Json.{
  Value, Items, Entries, array, object, done, item, end, entry, as_object, as_str, get_entry,
  get_field,
}
use onair.Core.Openai.Usage.{
  UsageTotals, UsageObservation, no_totals, no_diagnostics, observe_object, add_usage_object,
}

unfoldable pub observe_usage : Option Entries → UsageObservation → UsageObservation
unfolding observe_object add_usage_object
observe_usage none o = o
observe_usage (some usage) o = record {
  totals = add_usage_object usage o.totals;
  diagnostics = observe_object usage o.diagnostics;
}

unfoldable mutual
  unfolding observe_usage

  pub collect_usage : Value → UsageObservation → UsageObservation
  collect_usage (object es) o =
      collect_entries es (observe_usage (and_then (get_entry es "usage") as_object) o)
  collect_usage (array vs) o = collect_items vs o
  collect_usage _ o = o

  pub collect_items : Items → UsageObservation → UsageObservation
  collect_items done o = o
  collect_items (item v vs) o = collect_items vs (collect_usage v o)

  pub collect_entries : Entries → UsageObservation → UsageObservation
  collect_entries end o = o
  collect_entries (entry k v es) o = collect_entries es (collect_usage v o)

unfoldable pub extract_usage_observation : Value → UsageObservation
unfolding collect_usage
extract_usage_observation v =
    collect_usage v (record { totals = no_totals; diagnostics = no_diagnostics })

unfoldable pub extract_usage : Value → UsageTotals
unfolding extract_usage_observation
extract_usage v = (extract_usage_observation v).totals

-- `UsageTotals::is_empty`
unfoldable pub is_empty_totals : UsageTotals → Bool
is_empty_totals t =
    eqb t.input 0
    && eqb t.cached_input 0
    && eqb t.output 0
    && eqb t.reasoning_output 0
    && eqb t.total 0

-- The name of the event that a body reports itself to be.
unfoldable pub json_event_type : Value → Option String
json_event_type v =
    or_else (and_then (get_field v "type") as_str) (and_then (get_field v "object") as_str)
