-- ===== src/Core/ContextCache.antt =====
-- crates/onair-core/src/context_size_cache.rs: the sizes of context windows observed upstream.
-- The clock's answer is an argument.
pub mod Laws
use onair.Prelude.{
  ℕ, String, Bool, List, [], ◌∷◌, Option, none, some, ◌==◌, StringMap, StringSet, get, put,
  contains, and_then, map_option, unwrap_or, if◌then◌else◌,
}

pub record ContextSizeEntry : Type 0 where
  pub value : Option ℕ
  pub last_success_unix_ms : Option ℕ
  pub last_failure_unix_ms : Option ℕ
  pub last_error_kind : Option String

abbrev pub ContextSizeCache : Type 0
ContextSizeCache = StringMap ContextSizeEntry

abbrev pub default_entry : ContextSizeEntry
default_entry = record {
  value = none;
  last_success_unix_ms = none;
  last_failure_unix_ms = none;
  last_error_kind = none;
}

unfoldable pub entry : ContextSizeCache → String → Option ContextSizeEntry
entry cache public_model = get cache public_model

unfoldable pub lookup : ContextSizeCache → String → Option ℕ
lookup cache public_model = and_then (get cache public_model) (λ (e : ContextSizeEntry). e.value)

-- The entry that is written, from the one that stood there.
updated : ContextSizeEntry → ℕ → Option ℕ → Option String → ContextSizeEntry
updated e now (some v) none = record e {
  value = some v;
  last_success_unix_ms = some now;
  last_error_kind = none;
}
updated e now none (some kind) = record e {
  value = none;
  last_failure_unix_ms = some now;
  last_error_kind = some kind;
}
updated e now value kind = record e { value = value }

unfoldable pub set : ContextSizeCache → ℕ → String → Option ℕ → Option String → ContextSizeCache
unfolding updated
set cache now public_model none none = cache
set cache now public_model value error_kind =
    put public_model
      (updated (unwrap_or (get cache public_model) default_entry) now value error_kind) cache

unfoldable pub prune : ContextSizeCache → StringSet → ContextSizeCache
prune [] active = []
prune ((k, e) ∷ cache) active =
    let rest = prune cache active in if contains active k then (k, e) ∷ rest else rest
