-- ===== src/Core/Cidr.antt =====
-- crates/onair-core/src/ip_cidr.rs: address blocks of the trusted proxies. An address is its bits
-- as a number. The texts of the errors are left out: an error is its case.
pub mod Membership
pub mod Parsing
use Prim.Native.Nat.{bit_and, bit_or}
use Prim.Native.String.{[], ◌∷◌}
use onair.Prelude.{
  ℕ, ◌+◌, ◌-◌, ◌*◌, ◌%◌, ◌^◌, String, code, Bool, false, ◌&&◌, Option, none, some, eqb, ltb, leb,
  if◌then◌else◌, trim, is_empty, split_once, and_then,
}

pub data IpAddr : Type 0 where
  v4 : ℕ → IpAddr
  v6 : ℕ → IpAddr

pub record IpCidr : Type 0 where
  pub network : IpAddr
  pub prefix : ℕ

abbrev pub v4_mapped_prefix : ℕ
v4_mapped_prefix = 0xFFFF * 2 ^ 32

ipv4_mask : ℕ → ℕ
ipv4_mask prefix = if eqb prefix 0 then 0 else (2 ^ 32 - 1) * 2 ^ (32 - prefix) % 2 ^ 32

ipv6_mask : ℕ → ℕ
ipv6_mask prefix = if eqb prefix 0 then 0 else (2 ^ 128 - 1) * 2 ^ (128 - prefix) % 2 ^ 128

same_masked : ℕ → ℕ → ℕ → Bool
same_masked mask network address = eqb (bit_and network mask) (bit_and address mask)

contains_at : IpAddr → ℕ → IpAddr → Bool
contains_at (v4 network) prefix (v4 address) =
    if leb prefix 32 then same_masked (ipv4_mask prefix) network address else false
contains_at (v6 network) prefix (v6 address) =
    if leb prefix 128 then same_masked (ipv6_mask prefix) network address else false
contains_at (v6 network) prefix (v4 address) =
    if leb prefix 128
    then same_masked (ipv6_mask prefix) network (bit_or address v4_mapped_prefix)
    else false
contains_at (v4 network) prefix (v6 address) = false

unfoldable pub contains : IpCidr → IpAddr → Bool
unfolding contains_at same_masked ipv4_mask ipv6_mask
contains cidr address = contains_at cidr.network cidr.prefix address

pub data CidrError : Type 0 where
  empty invalid_address invalid_prefix exceeds_maximum zero_prefix : CidrError

pub data Parsed : Type 0 where
  ok : IpCidr → Parsed
  err : CidrError → Parsed

-- `u8::from_str`: an optional plus sign, then at least one digit, at most 255.
u8_digits : ℕ → String → Option ℕ
u8_digits acc [] = some acc
u8_digits acc (c ∷ s) =
    let next = acc * 10 + (code c - 48) in
    let rest = u8_digits next s in
    if leb 48 (code c) && leb (code c) 57 && leb next 255 then rest else none

parse_u8 : String → Option ℕ
unfolding u8_digits
parse_u8 [] = none
parse_u8 (c ∷ s) =
    if eqb (code c) b'+' then (if is_empty s then none else u8_digits 0 s) else u8_digits 0 (c ∷ s)

max_prefix : IpAddr → ℕ
max_prefix (v4 a) = 32
max_prefix (v6 a) = 128

check_prefix : IpAddr → ℕ → Parsed
unfolding max_prefix
check_prefix network prefix =
    if ltb (max_prefix network) prefix
    then err exceeds_maximum
    else if eqb prefix 0
    then err zero_prefix
    else ok (record { network = network; prefix = prefix })

-- `IpAddr::from_str` is the parameter `parse_ip`.
module _ (parse_ip : String → Option IpAddr) where
  with_prefix : Option IpAddr → Option ℕ → Parsed
  with_prefix none prefix = err invalid_address
  with_prefix (some network) none = err invalid_prefix
  with_prefix (some network) (some prefix) = check_prefix network prefix

  parse_parts : String → Option (String × String) → Parsed
  parse_parts value (some (address, prefix)) = with_prefix (parse_ip address) (parse_u8 prefix)
  parse_parts value none =
      with_prefix (parse_ip value) (and_then (parse_ip value) (λ a. some (max_prefix a)))

  unfoldable pub from_str : String → Parsed
  unfolding check_prefix parse_parts with_prefix parse_u8
  from_str text =
      let value = trim text in
      if is_empty value then err empty else parse_parts value (split_once b'/' value)
