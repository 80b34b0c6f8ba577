-- ===== src/Core/Openai/Json.antt =====
-- `serde_json::Value` and the accessors that crates/onair-core/src/openai/response.rs uses of it.
use Prim.Native.Nat.{Ordering}
use Prim.Native.String.{compare}
use onair.Prelude.{ℕ, String, Bool, Option, none, some, and_then, if◌then◌else◌, ◌==◌}

-- A number that `as_u64` reads, or any other with its text.
pub data Number : Type 0 where
  u64 : ℕ → Number
  other : String → Number

-- A `Map<String, Value>` is a `BTreeMap`: its entries in ascending order of the keys.
mutual
  pub data Value : Type 0 where
    null : Value
    bool : Bool → Value
    number : Number → Value
    string : String → Value
    array : Items → Value
    object : Entries → Value

  pub data Items : Type 0 where
    done : Items
    item : Value → Items → Items

  pub data Entries : Type 0 where
    end : Entries
    entry : String → Value → Entries → Entries

abbrev pub as_str : Value → Option String
as_str (string s) = some s
as_str _ = none

abbrev pub as_object : Value → Option Entries
as_object (object es) = some es
as_object _ = none

abbrev pub as_array : Value → Option Items
as_array (array vs) = some vs
as_array _ = none

abbrev pub as_u64 : Value → Option ℕ
as_u64 (number (u64 n)) = some n
as_u64 _ = none

-- `map.get(key)`
abbrev pub get_entry : Entries → String → Option Value
get_entry end k = none
get_entry (entry j v es) k = if j == k then some v else get_entry es k

-- `value.get(key)`
abbrev pub get_field : Value → String → Option Value
get_field v k = and_then (as_object v) (λ es. get_entry es k)

-- `map.insert(key, value)`
unfoldable pub insert_entry : String → Value → Entries → Entries
insert_entry k v end = entry k v end
insert_entry k v (entry j w es) = elim (compare k j) [
  | Ordering.lt ↦ entry k v (entry j w es)
  | Ordering.eq ↦ entry k v es
  | Ordering.gt ↦ entry j w (insert_entry k v es)
]

-- `map.remove(key)`
abbrev pub remove_entry : String → Entries → Entries
remove_entry k end = end
remove_entry k (entry j v es) =
    let rest = remove_entry k es in if j == k then rest else entry j v rest

-- `map.get_mut(key)` and a write through it
abbrev pub update_entry : String → (Value → Value) → Entries → Entries
update_entry k f end = end
update_entry k f (entry j v es) =
    let rest = update_entry k f es in if j == k then entry j (f v) es else entry j v rest
