-- ===== src/Core/Error/Upstream.antt =====
-- What an upstream failure lets a client see, from error.rs.
use onair.Prelude.{ℕ, ◌≡◌, refl, ◌↔◌, List, [], ◌∷◌, arith, eq_iff}
use onair.Core.Error.{ApiError, upstream, map_upstream_status, into_anthropic_parts}

-- The sanitized error of an upstream status carries the mapped status, and mapping it again
-- changes nothing.
pub upstream-status :
    (status : ℕ)
    → ((upstream status).status ≡ map_upstream_status status)
      × (map_upstream_status (map_upstream_status status) ≡ map_upstream_status status)
unfolding upstream
upstream-status status = ground arith

-- The statuses of a backend that a client sees as they are.
abbrev pub passed_on : List ℕ
passed_on = 400 ∷ 408 ∷ 422 ∷ 429 ∷ []

-- In the Anthropic form the status and the message are kept, and the type is `not_found_error`
-- exactly for the status 404.
pub into_anthropic_parts-not_found_iff :
    (e : ApiError)
    → ((into_anthropic_parts e).0 ≡ e.status)
      × ((into_anthropic_parts e).1.message ≡ e.message)
      × (((into_anthropic_parts e).1.kind ≡ "not_found_error") ↔ (e.status ≡ 404))
unfolding into_anthropic_parts
into_anthropic_parts-not_found_iff e = (
  refl,
  refl,
  ground (
    arith,
    eq_iff "invalid_request_error" "not_found_error",
    eq_iff "authentication_error" "not_found_error",
    eq_iff "rate_limit_error" "not_found_error",
    eq_iff "api_error" "not_found_error",
  ),
)
