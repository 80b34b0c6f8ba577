-- ===== src/Core/Config/Reload.antt =====
-- crates/onair-core/src/config.rs: the store of the running configuration and its reload. What the
-- file holds at each attempt is an argument: nothing where it cannot be read or parsed.
pub mod Running
use onair.Prelude.{
  ℕ, zero, suc, ◌+◌, String, Bool, true, false, ◌||◌, Option, none, some, List, [], ◌∷◌, ◌==◌, any,
  if◌then◌else◌,
}
use onair.Core.Config.Types.{ConfigFile, Config}
use onair.Core.Config.Result.{Result, ConfigError, ok, err}
use onair.Core.Config.Secrets.{Host}
use onair.Core.Config.Resolve.{resolve}

abbrev pub config_reload_max_attempts : ℕ
config_reload_max_attempts = 5

pub data LoadError : Type 0 where
  unreadable : LoadError
  invalid : ConfigError → LoadError

pub data Loaded (V : Type 0) : Type 0 where
  failed : LoadError → Loaded V
  loaded : Config V → Loaded V

pub record ConfigStore (V : Type 0) : Type 0 where
  pub inner : Config V

module _ {V : Type 0} where
  abbrev pub new_store : Config V → ConfigStore V
  new_store config = record { inner = config }

  abbrev pub snapshot : ConfigStore V → Config V
  snapshot store = store.inner

  -- `replace` returns the configuration that it stores.
  abbrev pub replace : Config V → ConfigStore V → Config V × ConfigStore V
  replace config store = (config, record { inner = config })

  loaded_from : Result (Config V) → Loaded V
  loaded_from (err e) = failed (invalid e)
  loaded_from (ok config) = loaded config

  -- `Config::load`
  unfoldable pub load : Host → Option (ConfigFile V) → Loaded V
  unfolding resolve loaded_from
  load host none = failed unreadable
  load host (some file) = loaded_from (resolve host file)

  unfoldable pub apply_reloaded_config : Config V → ConfigStore V → ConfigStore V
  apply_reloaded_config config store = (replace config store).1

  -- `try_reload_config`: whether it succeeded, and the store.
  unfoldable pub try_reload_config :
      Host → Option (ConfigFile V) → ConfigStore V → Option LoadError × ConfigStore V
  unfolding load apply_reloaded_config
  try_reload_config host file store = elim (load host file) [
    | failed e ↦ (some e, store)
    | loaded config ↦ (none, apply_reloaded_config config store)
  ]

  -- The attempts from one on: the last error is reported, the others are followed by a delay and
  -- another attempt at what the file then holds.
  unfoldable pub reload_from :
      Host
      → (ℕ → Option (ConfigFile V))
      → (attempt : ℕ) → (left : ℕ) → ConfigStore V
      → Option LoadError × ConfigStore V
  unfolding try_reload_config
  reload_from host file attempt zero store = try_reload_config host (file attempt) store
  reload_from host file attempt (suc left) store =
      let tried = try_reload_config host (file attempt) store in
      elim tried.0 [
        | none ↦ (none, tried.1)
        | some e ↦ reload_from host file (attempt + 1) left tried.1
      ]

  unfoldable pub reload_config_with_retries :
      Host → (ℕ → Option (ConfigFile V)) → ConfigStore V → Option LoadError × ConfigStore V
  unfolding reload_from
  reload_config_with_retries host file store = reload_from host file 1 4 store

-- `notify::EventKind`, as far as the watcher tells the kinds apart.
pub data EventKind : Type 0 where
  any_kind create modify remove : EventKind
  closed_after_write closed_after_any other_access other_kind : EventKind

-- An event: its kind, and each path with its last component.
pub record Event : Type 0 where
  pub kind : EventKind
  pub paths : List (String × Option String)

is_reload_kind : EventKind → Bool
is_reload_kind other_access = false
is_reload_kind other_kind = false
is_reload_kind _ = true

is_named : Option String → String → Bool
is_named none filename = false
is_named (some event_filename) filename = event_filename == filename

is_nil : List (String × Option String) → Bool
is_nil [] = true
is_nil (p ∷ ps) = false

unfoldable pub is_reload_event : Event → String → String → Bool
unfolding is_reload_kind is_named is_nil
is_reload_event event path filename =
    if is_reload_kind event.kind
    then is_nil event.paths
      || any (λ (p : String × Option String). p.0 == path || is_named p.1 filename) event.paths
    else false

-- A debounced wait: the batch of what the channel holds after each delay. It ends with a batch
-- without a reload event, or with the end of the channel.
pub data Batch : Type 0 where
  empty : List (Option Event) → Batch
  disconnected : List (Option Event) → Batch

saw_reload_event : String → String → List (Option Event) → Bool
unfolding is_reload_event
saw_reload_event path filename [] = false
saw_reload_event path filename (none ∷ events) = saw_reload_event path filename events
saw_reload_event path filename (some event ∷ events) =
    is_reload_event event path filename || saw_reload_event path filename events

-- Whether the channel is still there, and the batches left; nothing if the batches run out.
unfoldable pub wait_for_reload_quiet : String → String → List Batch → Option (Bool × List Batch)
unfolding saw_reload_event
wait_for_reload_quiet path filename [] = none
wait_for_reload_quiet path filename (disconnected events ∷ batches) = some (false, batches)
wait_for_reload_quiet path filename (empty events ∷ batches) =
    let rest = wait_for_reload_quiet path filename batches in
    if saw_reload_event path filename events then rest else some (true, batches)
