-- ===== src/Core/Config/Secrets.antt =====
-- The clients and the backends of config.rs, with their secrets and base URLs.
pub mod Backends
use onair.Prelude.{
  ℕ, String, Bool, true, false, not, ◌&&◌, ◌||◌, List, [], ◌∷◌, Option, none, some, ◌==◌, eqb, trim,
  trim_end_matches, is_empty, is_some, contains_char, StringSet, contains, insert, extend,
  if◌then◌else◌, ◌+ˢ◌, map_option,
}
use onair.Core.Config.Types.{
  AccessConfig, ClientConfig, ResolvedClient, BackendConfig, ResolvedBackend, UnknownMarkerPolicy,
}
use onair.Core.Config.Markers.{canonicalize_marker_set, validate_markers}
use onair.Core.Config.Result.{
  ConfigError, Result, ok, err, fail_if, ok_or, ◌>>=◌, ◌>>◌, client_id_empty, no_clients,
  duplicate_client, secret_conflict, secret_required, missing_env, backend_secret_conflict,
  backend_id_empty, backend_id_reserved, duplicate_backend, weight_zero, no_backends,
  base_url_empty, base_url_invalid, base_url_scheme, base_url_host, base_url_credentials,
  base_url_query,
}

-- What the crate `url` answers of a parsed URL.
pub record Url : Type 0 where
  pub scheme : String
  pub host_str : Option String
  pub username : String
  pub password : Option String
  pub query : Option String
  pub fragment : Option String

-- The process environment and the third-party parsers that the resolution asks.
pub record Host : Type 0 where
  pub var : String → Option String
  pub parse_url : String → Option Url
  pub header_name : String → Bool
  pub header_value : String → Bool

abbrev is_blank : String → Bool
is_blank s = is_empty (trim s)

abbrev pub resolve_client : AccessConfig → ClientConfig → String → ResolvedClient
resolve_client access client key = record {
  id = client.id;
  api_key = key;
  models = extend (extend [] access.default_models) client.models;
}

reject_none {ℓ} : {A : Type ℓ} → ConfigError → List A → Result (List A)
reject_none e [] = err e
reject_none e (x ∷ xs) = ok (x ∷ xs)

check_url : String → String → Option Url → Result String
check_url backend_id trimmed none = err (base_url_invalid backend_id)
check_url backend_id trimmed (some url) = do
  fail_if (not (url.scheme == "http" || url.scheme == "https")) (base_url_scheme backend_id)
  fail_if (not (is_some url.host_str)) (base_url_host backend_id)
  fail_if (not (is_empty url.username) || is_some url.password) (base_url_credentials backend_id)
  fail_if (is_some url.query || is_some url.fragment) (base_url_query backend_id)
  ok trimmed

abbrev pub resolve_backend :
    {V : Type 0} → BackendConfig V → String → Option String → StringSet → ResolvedBackend V
resolve_backend backend base_url api_key supports = record {
  id = backend.id;
  base_url = base_url;
  api_key = api_key;
  timeout = backend.timeout_ms;
  supports = supports;
  tool_schema_mode = backend.tool_schema_mode;
  responses_store = backend.responses_store;
  responses_max_output_tokens = backend.responses_max_output_tokens;
  chat_stream_usage = backend.chat_stream_usage;
  weight = backend.weight;
  extra_body = backend.extra_body;
  expose_backend_errors = backend.expose_backend_errors;
  stream_capture = backend.stream_capture;
}

module _ (host : Host) where
  read_env : String → Result String
  read_env name = ok_or (host.var name) (missing_env name)

  unfoldable pub resolve_secret : Option String → Option String → String → Result String
  unfolding read_env
  resolve_secret (some _) (some _) label = err (secret_conflict label)
  resolve_secret (some value) none label =
      if is_blank value then err (secret_required label) else ok value
  resolve_secret none (some name) label =
      if is_blank name then err (secret_required label) else read_env name
  resolve_secret none none label = err (secret_required label)

  unfoldable pub resolve_optional_secret : Option String → Option String → Result (Option String)
  unfolding read_env
  resolve_optional_secret (some _) (some _) = err backend_secret_conflict
  resolve_optional_secret (some value) none = if is_blank value then ok none else ok (some value)
  resolve_optional_secret none (some name) =
      if is_blank name then ok none else (do v ← read_env name; ok (some v))
  resolve_optional_secret none none = ok none

  -- the loop, with the ids seen so far
  unfoldable pub clients_from :
      AccessConfig → StringSet → List ClientConfig → Result (List ResolvedClient)
  clients_from access client_ids [] = ok []
  clients_from access client_ids (client ∷ rest) = do
    fail_if (is_blank client.id) client_id_empty
    fail_if (contains client_ids client.id) (duplicate_client client.id)
    key ← resolve_secret client.api_key client.api_key_env ("client '" +ˢ client.id +ˢ "' api key")
    clients ← clients_from access (insert client.id client_ids) rest
    ok (resolve_client access client key ∷ clients)

  unfoldable pub resolve_clients : List ClientConfig → AccessConfig → Result (List ResolvedClient)
  unfolding reject_none
  resolve_clients raw access = do
    clients ← clients_from access [] raw
    reject_none no_clients clients

  unfoldable pub normalize_backend_base_url : String → String → Result String
  unfolding check_url
  normalize_backend_base_url base_url backend_id = do
    let trimmed = trim_end_matches b'/' (trim base_url)
    fail_if (is_empty trimmed) (base_url_empty backend_id)
    check_url backend_id trimmed (host.parse_url trimmed)

  module _ {V : Type 0} where
    unfoldable pub backends_from :
        UnknownMarkerPolicy → StringSet → List (BackendConfig V) → Result (List (ResolvedBackend V))
    backends_from policy backend_ids [] = ok []
    backends_from policy backend_ids (backend ∷ rest) = do
      fail_if (is_blank backend.id) backend_id_empty
      fail_if (contains_char b'@' backend.id) (backend_id_reserved backend.id)
      fail_if (contains backend_ids backend.id) (duplicate_backend backend.id)
      fail_if (eqb backend.weight 0) (weight_zero backend.id)
      base_url ← normalize_backend_base_url backend.base_url backend.id
      api_key ← resolve_optional_secret backend.api_key backend.api_key_env
      let supports = canonicalize_marker_set backend.supports
      validate_markers supports policy ("backend '" +ˢ backend.id +ˢ "'")
      backends ← backends_from policy (insert backend.id backend_ids) rest
      ok (resolve_backend backend base_url api_key supports ∷ backends)

    unfoldable pub resolve_backends :
        List (BackendConfig V) → UnknownMarkerPolicy → Result (List (ResolvedBackend V))
    unfolding reject_none
    resolve_backends raw policy = do
      backends ← backends_from policy [] raw
      reject_none no_backends backends
