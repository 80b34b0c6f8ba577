-- ===== src/Tests/Access.antt =====
-- The theorems on errors, address blocks, authentication and context sizes, applied.
use text.Mathlib.TextEquality.{eq_iff}
use onair.Prelude.{
  is_empty, false, ◌≤◌, ◌≡◌, refl, ◌↔◌, String, Bool, true, [], ◌∷◌, Option, ◌==◌, arith,
  if◌then◌else◌, trim,
}
use Prim.Native.String.{count}
use onair.Core.Sanitize.{sanitize_for_storage}
use onair.Core.Sanitize.Laws.{IsSafe, sanitize_for_storage-IsSafe}
use onair.Core.Error.{upstream, map_upstream_status, into_anthropic_parts, not_found}
use onair.Core.Error.Upstream.{upstream-status, into_anthropic_parts-not_found_iff}
use onair.Core.Cidr.{IpAddr, v4, IpCidr, from_str}
use onair.Core.Cidr
use onair.Core.Cidr.Membership.{contains_iff, Covers}
use onair.Core.Cidr.Parsing.{from_str-IsProper, IsProper}
use onair.Core.Auth.{Headers, authenticate}
use onair.Core.Auth.Laws.{ComparesContents, admitted, authenticate-eq_admitted}
use onair.Core.ContextCache.{lookup, set}
use onair.Core.ContextCache.Laws.{lookup-set, observed}
use onair.Tests.Fixtures.{client}

upstream-status_example :
    ((upstream 503).status ≡ map_upstream_status 503)
    × (map_upstream_status (map_upstream_status 503) ≡ map_upstream_status 503)
upstream-status_example = upstream-status 503

abbrev block : IpCidr
block = record { network = v4 167772160; prefix = 8 }

-- 10.0.0.0/8 and 10.1.2.3
contains_iff_example :
    (Cidr.contains block (v4 167838211) ≡ true) ↔ Covers (v4 167772160) 8 (v4 167838211)
contains_iff_example =
    contains_iff (v4 167772160) 8 (v4 167838211) (omega arith) (omega arith) (omega arith)

abbrev parse_ip : String → Option IpAddr
parse_ip text = if text == "10.0.0.0" then Option.some (v4 167772160) else Option.none

block-parses : from_str parse_ip " 10.0.0.0/8" ≡ Cidr.ok block
unfolding from_str trim
block-parses = refl

from_str-IsProper_example : IsProper block
from_str-IsProper_example = from_str-IsProper parse_ip " 10.0.0.0/8" block block-parses

abbrev ct_eq : String → String → Bool
ct_eq a b = a == b

ct_eq-ComparesContents : ComparesContents ct_eq
ct_eq-ComparesContents a b same = eq_iff a b

abbrev headers : Headers
headers name = if name == "authorization" then Option.some "Bearer key" else Option.none

authenticate-eq_admitted_example :
    authenticate ct_eq headers (client ∷ []) ≡ admitted headers (client ∷ [])
authenticate-eq_admitted_example =
    authenticate-eq_admitted ct_eq ct_eq-ComparesContents headers (client ∷ [])

lookup-set_example : lookup (set [] 5 "m" (Option.some 4096) Option.none) "m" ≡ (
    if "m" == "m" then observed (lookup [] "m") (Option.some 4096) Option.none else lookup [] "m")
lookup-set_example = lookup-set [] 5 "m" "m" (Option.some 4096) Option.none

into_anthropic_parts-not_found_iff_example :
    ((into_anthropic_parts (not_found "gone")).0 ≡ (not_found "gone").status)
    × ((into_anthropic_parts (not_found "gone")).1.message ≡ (not_found "gone").message)
    × (((into_anthropic_parts (not_found "gone")).1.kind ≡ "not_found_error")
        ↔ ((not_found "gone").status ≡ 404))
into_anthropic_parts-not_found_iff_example = into_anthropic_parts-not_found_iff (not_found "gone")

sanitized : sanitize_for_storage "req/1 \n2" 6 ≡ Option.some "req_1_"
unfolding sanitize_for_storage
sanitized = refl

sanitize_for_storage-IsSafe_example :
    (is_empty "req_1_" ≡ false)
    × (count "req_1_" ≤ 6)
    × IsSafe "req_1_"
    × (sanitize_for_storage "req_1_" 6 ≡ Option.some "req_1_")
sanitize_for_storage-IsSafe_example = sanitize_for_storage-IsSafe "req/1 \n2" 6 "req_1_" sanitized
