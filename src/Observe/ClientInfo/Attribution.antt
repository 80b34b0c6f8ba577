-- ===== src/Observe/ClientInfo/Attribution.antt =====
-- To whom a request is attributed.
use onair.Prelude.{◌≡◌, none, some}
use onair.Observe.ClientInfo.{ClientInfo}
use onair.Observe.ClientInfo.Named.{Named}

-- The client is the peer, with no proxy between them.
abbrev pub IsDirect : ClientInfo → Type 0
IsDirect info =
    (info.effective_client_addr ≡ info.peer_addr)
    × (info.forwarded_for ≡ none)
    × (info.trusted_proxy_addr ≡ none)

-- The client is another, behind the peer.
abbrev pub IsForwarded : ClientInfo → Type 0
IsForwarded info =
    (info.forwarded_for ≡ some info.effective_client_addr)
    × (info.trusted_proxy_addr ≡ some info.peer_addr)
