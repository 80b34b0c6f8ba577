-- ===== src/Core/Cidr/Parsing.antt =====
-- Which blocks a configuration can name, from ip_cidr.rs.
use onair.Prelude.{
  ℕ, ◌<◌, String, ◌≡◌, Option, none, some, arith, trim, is_empty, Bool-cases, inl, inr,
}
use onair.Core.Cidr.{IpAddr, v4, v6, IpCidr, ok, check_prefix, with_prefix, parse_parts, from_str}
use onair.Core.Cidr.Membership.{PrefixFits}

abbrev pub IsProper : IpCidr → Type 0
IsProper c = (0 < c.prefix) × PrefixFits c.network c.prefix

check_prefix-eq-ok :
    (network : IpAddr) (prefix : ℕ) (c : IpCidr)
    → check_prefix network prefix ≡ ok c
    → (record { network = network; prefix = prefix } ≡ c) × (0 < prefix) × PrefixFits network prefix
unfolding check_prefix
check_prefix-eq-ok (v4 n) prefix c h = ground arith
check_prefix-eq-ok (v6 n) prefix c h = ground arith

check_prefix-IsProper :
    (network : IpAddr) (prefix : ℕ) (c : IpCidr) → check_prefix network prefix ≡ ok c → IsProper c
check_prefix-IsProper network prefix c h =
    let (same, pos, fits) = check_prefix-eq-ok network prefix c h in rw (← same) (pos, fits)

module _ (parse_ip : String → Option IpAddr) where
  with_prefix-IsProper :
      (a : Option IpAddr) (p : Option ℕ) (c : IpCidr) → with_prefix parse_ip a p ≡ ok c → IsProper c
  unfolding with_prefix
  with_prefix-IsProper none p c h = cc h
  with_prefix-IsProper (some n) none c h = cc h
  with_prefix-IsProper (some n) (some p) c h = check_prefix-IsProper n p c h

  parse_parts-IsProper :
      (value : String) (parts : Option (String × String)) (c : IpCidr)
      → parse_parts parse_ip value parts ≡ ok c
      → IsProper c
  unfolding parse_parts
  parse_parts-IsProper value (some (a, p)) c h = with_prefix-IsProper _ _ c h
  parse_parts-IsProper value none c h = with_prefix-IsProper _ _ c h

-- Whatever the text and the parser of addresses: a block that a configuration names has a prefix
-- length of at least 1 and at most the width of its network.
pub from_str-IsProper :
    (parse_ip : String → Option IpAddr) (text : String) (c : IpCidr)
    → from_str parse_ip text ≡ ok c
    → IsProper c
unfolding from_str
from_str-IsProper parse_ip text c h = elim (Bool-cases (is_empty (trim text))) [
  | inl e ↦ cc (rw e at h)
  | inr e ↦ parse_parts-IsProper parse_ip (trim text) _ c (rw e at h)
]
