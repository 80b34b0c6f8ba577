-- ===== src/Tests/Clients.antt =====
-- A request through a trusted proxy, and the theorem on its attribution applied.
use Prim.Native.String.{[], ◌∷◌}
use onair.Prelude.{◌≡◌, refl, Option, List, [], ◌∷◌, ◌*◌, ◌^◌, ◌==◌, if◌then◌else◌}
use onair.Core.Cidr.{v4, IpCidr}
use onair.Observe.ClientInfo.{SocketAddr, AddressText, HeaderMap, from_headers}
use onair.Observe.ClientInfo.Named.{Named}

-- The texts of two addresses.
abbrev text : AddressText
text = record {
  parse_socket = λ s. Option.none;
  parse_ip = λ s. if s == "10.0.0.7" then Option.some (v4 (10 * 2 ^ 24)) else Option.none;
  socket_text = λ a. "127.0.0.1:4000";
  ip_text = λ ip. "10.0.0.7";
}

abbrev peer : Option SocketAddr
peer = Option.some (record { ip = v4 (127 * 2 ^ 24); port = 4000 })

abbrev loopback : List IpCidr
loopback = record { network = v4 (127 * 2 ^ 24); prefix = 8 } ∷ []

abbrev headers : HeaderMap
headers =
    ("x-forwarded-for", Option.some "6.6.6.6, 10.0.0.7 ") ∷ ("user-agent", Option.some "curl") ∷ []

closest_hop : from_headers text headers peer loopback ≡ record {
  peer_addr = "127.0.0.1:4000";
  effective_client_addr = "10.0.0.7";
  trusted_proxy_addr = Option.some "127.0.0.1:4000";
  forwarded_for = Option.some "10.0.0.7";
  user_agent = Option.some "curl";
}
unfolding from_headers
closest_hop = refl

ignored : (from_headers text headers peer []).effective_client_addr ≡ "127.0.0.1:4000"
unfolding from_headers
ignored = refl
