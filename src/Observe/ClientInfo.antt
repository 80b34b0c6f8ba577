-- ===== src/Observe/ClientInfo.antt =====
-- crates/onair-obs/src/observe/client_info.rs: the address of the client behind trusted proxies.
-- A header map is the list of its fields in order, each value with what `to_str` makes of it; the
-- names are in lower case. The parsers and the printers of addresses are parameters.
pub mod Named
pub mod Attribution
use Prim.Native.String.{[], ◌∷◌}
use onair.Prelude.{
  ℕ, zero, suc, ◌+◌, ◌/◌, ◌%◌, ◌^◌, Char, code, String, Bool, true, false, ◌&&◌, ◌||◌, Option, none,
  some, and_then, or_else, map_option, unwrap_or, is_some, eqb, leb, ltb, if◌then◌else◌, ◌==◌, ◌+ˢ◌,
  List, [], ◌∷◌, ◌++◌, any, is_empty, split, split_once, trim, trim_start_matches, trim_end_matches,
  strip_prefix,
}
use onair.Core.Cidr.{IpAddr, v4, v6, IpCidr, contains}

pub record SocketAddr : Type 0 where
  pub ip : IpAddr
  pub port : ℕ

-- `parse` and `to_string` of addresses.
pub record AddressText : Type 0 where
  pub parse_socket : String → Option SocketAddr
  pub parse_ip : String → Option IpAddr
  pub socket_text : SocketAddr → String
  pub ip_text : IpAddr → String

abbrev pub HeaderMap : Type 0
HeaderMap = List (String × Option String)

-- `headers.get_all(name)`
unfoldable pub get_all : HeaderMap → String → List (Option String)
get_all [] name = []
get_all ((k, v) ∷ hs) name = let rest = get_all hs name in if k == name then v ∷ rest else rest

abbrev pub first_of : List (Option String) → Option (Option String)
first_of [] = none
first_of (v ∷ vs) = some v

abbrev pub last_of : List (Option String) → Option (Option String)
last_of [] = none
last_of (v ∷ []) = some v
last_of (v ∷ w ∷ vs) = last_of (w ∷ vs)

abbrev pub flatten : Option (Option String) → Option String
flatten none = none
flatten (some o) = o

pub record ClientInfo : Type 0 where
  pub peer_addr : String
  pub effective_client_addr : String
  pub trusted_proxy_addr : Option String
  pub forwarded_for : Option String
  pub user_agent : Option String

-- `to_ascii_lowercase`, and the comparison that ignores the case of letters.
abbrev lower : ℕ → ℕ
lower n = if leb b'A' n && leb n b'Z' then n + 32 else n

unfoldable pub eq_ignore_ascii_case : String → String → Bool
eq_ignore_ascii_case [] [] = true
eq_ignore_ascii_case [] (d ∷ t) = false
eq_ignore_ascii_case (c ∷ s) [] = false
eq_ignore_ascii_case (c ∷ s) (d ∷ t) =
    eqb (lower (code c)) (lower (code d)) && eq_ignore_ascii_case s t

-- `value.starts_with('_')`
abbrev starts_with_underscore : String → Bool
starts_with_underscore [] = false
starts_with_underscore (c ∷ s) = eqb (code c) b'_'

-- `rsplit(',')`
reversed : List String → List String
reversed [] = []
reversed (s ∷ ss) = reversed ss ++ (s ∷ [])

unfoldable pub rsplit : ℕ → String → List String
unfolding reversed
rsplit k s = reversed (split k s)

-- The value of the first part `for=...` of an entry.
unfoldable pub find_for : List String → Option String
unfolding trim eq_ignore_ascii_case
find_for [] = none
find_for (part ∷ parts) =
    let rest = find_for parts in
    elim (split_once b'=' (trim part)) [
      | none ↦ rest
      | some p ↦ if eq_ignore_ascii_case (trim p.0) "for" then some p.1 else rest
    ]

joined_values : String → List (Option String) → Option String
joined_values combined [] = some combined
joined_values combined (none ∷ vs) = none
joined_values combined (some v ∷ vs) = joined_values (combined +ˢ "," +ˢ v) vs

unfoldable pub combined_header_values : HeaderMap → String → Option String
unfolding joined_values get_all
combined_header_values headers name = elim (get_all headers name) [
  | [] ↦ none
  | none ∷ vs ↦ none
  | some v ∷ vs ↦ joined_values v vs
]

-- `char::is_control`: the category Cc.
abbrev is_control : Char → Bool
is_control c = ltb (code c) 32 || (leb 127 (code c) && leb (code c) 159)

masked : ℕ → String → String
masked zero s = []
masked (suc n) [] = []
masked (suc n) (c ∷ s) = (if is_control c then "_" else c) ∷ masked n s

non_empty : String → Option String
non_empty s = if is_empty s then none else some s

unfoldable pub sanitized_value : String → Option String
unfolding masked non_empty trim
sanitized_value value = and_then (non_empty (trim value)) (λ s. non_empty (masked 256 s))

unfoldable pub sanitized_header : HeaderMap → String → Option String
unfolding get_all sanitized_value
sanitized_header headers name = and_then (flatten (first_of (get_all headers name))) sanitized_value

unfoldable pub is_trusted : Option SocketAddr → List IpCidr → Bool
unfolding contains
is_trusted none cidrs = false
is_trusted (some address) cidrs = any (λ cidr. contains cidr address.ip) cidrs

-- `IpAddr::is_loopback`: 127.0.0.0/8 and ::1.
abbrev pub is_loopback : IpAddr → Bool
is_loopback (v4 a) = eqb (a / 2 ^ 24) 127
is_loopback (v6 a) = eqb a 1

module _ (text : AddressText) where
  unfoldable pub normalized_ip_or_socket : String → Option String
  normalized_ip_or_socket value = or_else (map_option text.socket_text (text.parse_socket value)) (
      or_else (map_option text.ip_text (text.parse_ip value)) (
        map_option text.ip_text (
          and_then (and_then (strip_prefix "[" value) (split_once b']'))
            (λ (p : String × String). text.parse_ip p.0))))

  unfoldable pub clean_forwarded_value : String → Option String
  unfolding normalized_ip_or_socket trim eq_ignore_ascii_case
  clean_forwarded_value value =
      let clean = trim (trim_end_matches b'"' (trim_start_matches b'"' (trim value))) in
      if eq_ignore_ascii_case clean "unknown" || starts_with_underscore clean
      then none
      else normalized_ip_or_socket clean

  unfoldable pub first_entry : List String → Option String
  unfolding find_for clean_forwarded_value
  first_entry [] = none
  first_entry (e ∷ es) = elim (find_for (split b';' e)) [
    | some raw_for ↦ clean_forwarded_value raw_for
    | none ↦ first_entry es
  ]

  unfoldable pub forwarded_header_client : String → Option String
  unfolding first_entry rsplit
  forwarded_header_client value = first_entry (rsplit b',' value)

  unfoldable pub first_part : List String → Option String
  unfolding clean_forwarded_value trim
  first_part [] = none
  first_part (part ∷ parts) =
      let rest = first_part parts in
      if is_empty (trim part) then rest else clean_forwarded_value (trim part)

  unfoldable pub first_forwarded_for : String → Option String
  unfolding first_part rsplit
  first_forwarded_for value = first_part (rsplit b',' value)

  unfoldable pub last_header_value : HeaderMap → String → Option String
  unfolding get_all clean_forwarded_value
  last_header_value headers name =
      and_then (flatten (last_of (get_all headers name))) clean_forwarded_value

  unfoldable pub forwarded_client : HeaderMap → Option String
  unfolding combined_header_values forwarded_header_client first_forwarded_for last_header_value
  forwarded_client headers =
      or_else (and_then (combined_header_values headers "forwarded") forwarded_header_client) (
        or_else (and_then (combined_header_values headers "x-forwarded-for") first_forwarded_for)
          (last_header_value headers "x-real-ip"))

  unfoldable pub from_headers : HeaderMap → Option SocketAddr → List IpCidr → ClientInfo
  unfolding is_trusted forwarded_client sanitized_header
  from_headers headers peer_addr trusted_proxy_cidrs =
      let peer_addr_string = unwrap_or (map_option text.socket_text peer_addr) "unknown" in
      let forwarded_for =
        if is_trusted peer_addr trusted_proxy_cidrs then forwarded_client headers else none in
      record {
        peer_addr = peer_addr_string;
        effective_client_addr = unwrap_or forwarded_for peer_addr_string;
        trusted_proxy_addr = map_option (λ (s : String). peer_addr_string) forwarded_for;
        forwarded_for = forwarded_for;
        user_agent = sanitized_header headers "user-agent";
      }

  unfoldable pub client_ip : String → Option IpAddr
  client_ip value =
      or_else (map_option (λ (a : SocketAddr). a.ip) (text.parse_socket value))
        (text.parse_ip value)

  unfoldable pub effective_client_is_loopback : ClientInfo → Bool
  unfolding client_ip
  effective_client_is_loopback info = elim (client_ip info.effective_client_addr) [
    | none ↦ false
    | some ip ↦ is_loopback ip
  ]
