-- ===== src/Observe/ClientInfo/Named.antt =====
-- Which client the headers of a proxy name: the description that `forwarded_client` meets.
pub mod Reading
pub mod Scanning
pub mod Clients
use Prim.Native.Char.{code}
use Prim.Native.String.{[], ◌∷◌}
use onair.Prelude.{
  ℕ, ◌≡◌, ◌≢◌, ◌⊎◌, String, Char, Bool, true, false, Option, none, some, and_then, List, [], ◌∷◌,
  ◌++◌, map, All, Elem, trim, trim_start_matches, trim_end_matches, split, split_once, strip_prefix,
}
use onair.Core.Cidr.{IpAddr}
use onair.Observe.ClientInfo.{SocketAddr, AddressText, HeaderMap, get_all, eq_ignore_ascii_case}

-- The value without the spaces and the quotation marks around it.
abbrev pub unquoted : String → String
unquoted value = trim (trim_end_matches b'"' (trim_start_matches b'"' (trim value)))

-- "unknown", or a name that starts with '_'.
abbrev pub IsObfuscated : String → Type 0
IsObfuscated s =
    (eq_ignore_ascii_case s "unknown" ≡ true)
    ⊎ ((c : Char) × (rest : String) × (s ≡ c ∷ rest) × (code c ≡ b'_'))

-- The text before ']' in a text that starts with '['.
abbrev pub bracketed_text : String → Option (String × String)
bracketed_text s = and_then (strip_prefix "[" s) (split_once b']')

-- The first part that is not skipped gives the result; without one there is none.
pub data FirstOf (Skips : String → Type 0) (Gives : String → Option String → Type 0)
    (parts : List String) : Option String → Type 0 where
  all_skipped : All Skips parts → FirstOf Skips Gives parts none
  first :
      {o : Option String} (before : List String) (part : String) (after : List String)
      → parts ≡ before ++ (part ∷ after)
      → All Skips before
      → Gives part o
      → FirstOf Skips Gives parts o

-- The last part that is not skipped.
pub data LastOf (Skips : String → Type 0) (Gives : String → Option String → Type 0)
    (parts : List String) : Option String → Type 0 where
  all_skipped : All Skips parts → LastOf Skips Gives parts none
  last :
      {o : Option String} (before : List String) (part : String) (after : List String)
      → parts ≡ before ++ (part ∷ after)
      → All Skips after
      → Gives part o
      → LastOf Skips Gives parts o

-- A parameter `for=raw` of an entry.
abbrev pub IsFor : String → String → Type 0
IsFor parameter raw =
    (name : String) × (split_once b'=' (trim parameter) ≡ some (name, raw))
    × (eq_ignore_ascii_case (trim name) "for" ≡ true)

abbrev pub IsOther : String → Type 0
IsOther parameter = (raw : String) → ¬ IsFor parameter raw

-- The parts between the commas of all values of a header, in order.
abbrev pub parts_of : List String → List String
parts_of [] = []
parts_of (v ∷ vs) = split b',' v ++ parts_of vs

pub data Listed (headers : HeaderMap) (name : String) : Option (List String) → Type 0 where
  missing : get_all headers name ≡ [] → Listed headers name none
  unreadable : Elem none (get_all headers name) → Listed headers name none
  listed :
      (v : String) (vs : List String)
      → get_all headers name ≡ map some (v ∷ vs)
      → Listed headers name (some (parts_of (v ∷ vs)))

-- The last part of a header that is not skipped.
pub data LastIn (Skips : String → Type 0) (Gives : String → Option String → Type 0)
    (headers : HeaderMap) (name : String) : Option String → Type 0 where
  absent : Listed headers name none → LastIn Skips Gives headers name none
  present :
      {o : Option String} (parts : List String)
      → Listed headers name (some parts)
      → LastOf Skips Gives parts o
      → LastIn Skips Gives headers name o

module _ (text : AddressText) where
  -- The printed form of the address that a text holds: a socket address, an address, or an address
  -- in brackets.
  pub data Reads (s : String) : Option String → Type 0 where
    socket : {a : SocketAddr} → text.parse_socket s ≡ some a → Reads s (some (text.socket_text a))
    address :
        {ip : IpAddr}
        → text.parse_socket s ≡ none
        → text.parse_ip s ≡ some ip
        → Reads s (some (text.ip_text ip))
    bracketed :
        {inner rest : String} {ip : IpAddr}
        → text.parse_socket s ≡ none
        → text.parse_ip s ≡ none
        → bracketed_text s ≡ some (inner, rest)
        → text.parse_ip inner ≡ some ip
        → Reads s (some (text.ip_text ip))
    no_address :
        text.parse_socket s ≡ none
        → text.parse_ip s ≡ none
        → ((inner rest : String)
            → bracketed_text s ≡ some (inner, rest)
            → text.parse_ip inner ≡ none)
        → Reads s none

  pub data Denotes (value : String) : Option String → Type 0 where
    obfuscated : IsObfuscated (unquoted value) → Denotes value none
    plain :
        {o : Option String}
        → ¬ IsObfuscated (unquoted value)
        → Reads (unquoted value) o
        → Denotes value o

  -- The first parameter `for` of an entry gives the client.
  abbrev pub NamesFor : String → Option String → Type 0
  NamesFor entry o =
      (raw : String) × ((before : List String) × (parameter : String) × (after : List String)
        × (split b';' entry ≡ before ++ (parameter ∷ after))
        × All IsOther before
        × IsFor parameter raw)
      × Denotes raw o

  abbrev pub ByForwarded : HeaderMap → Option String → Type 0
  ByForwarded headers o =
      LastIn (λ entry. All IsOther (split b';' entry)) NamesFor headers "forwarded" o

  abbrev pub ByForwardedFor : HeaderMap → Option String → Type 0
  ByForwardedFor headers o =
      LastIn (λ part. trim part ≡ "") (λ part p. (trim part ≢ "") × Denotes (trim part) p) headers
        "x-forwarded-for" o

  -- The last value of x-real-ip.
  pub data ByRealIp (headers : HeaderMap) : Option String → Type 0 where
    no_value : get_all headers "x-real-ip" ≡ [] → ByRealIp headers none
    no_text :
        (before : List (Option String))
        → get_all headers "x-real-ip" ≡ before ++ (none ∷ [])
        → ByRealIp headers none
    value :
        {o : Option String} (before : List (Option String)) (v : String)
        → get_all headers "x-real-ip" ≡ before ++ (some v ∷ [])
        → Denotes v o
        → ByRealIp headers o

  -- The client that the headers name: by `Forwarded`, or else by x-forwarded-for, or else by
  -- x-real-ip.
  pub data Named (headers : HeaderMap) : Option String → Type 0 where
    by_forwarded : {s : String} → ByForwarded headers (some s) → Named headers (some s)
    by_forwarded_for :
        {s : String}
        → ByForwarded headers none
        → ByForwardedFor headers (some s)
        → Named headers (some s)
    by_real_ip :
        {o : Option String}
        → ByForwarded headers none
        → ByForwardedFor headers none
        → ByRealIp headers o
        → Named headers o
