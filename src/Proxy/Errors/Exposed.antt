-- ===== src/Proxy/Errors/Exposed.antt =====
-- What of a failed response the client sees.
use onair.Prelude.{
  ℕ, ◌<◌, ◌≡◌, true, Option, none, some, map_option, List, [], ◌∷◌, ◌++◌, length, Bytes,
}
use onair.Proxy.Attempts.Context.{ProxyContext}
use onair.Proxy.Errors.{
  Chunk, chunk, broken, BodyEnd, ended, sender_dropped, Captured, max_upstream_error_capture_bytes,
  captured_body, forwarded_body,
}

-- The body that the chunks are, unless the transfer breaks.
abbrev pub whole_body : List Chunk → Option Bytes
whole_body [] = some []
whole_body (broken ∷ chunks) = none
whole_body (chunk read us ∷ chunks) = map_option (λ (bs : Bytes). read ++ bs) (whole_body chunks)

-- No chunk is left, and the signal to shut down was not seen: the body ended, or the sender of the
-- signal is gone.
pub data StopsUnsignalled : BodyEnd → Type 0 where
  at_end : {us : ℕ} → StopsUnsignalled (ended us)
  sender_lost : {us : ℕ} → StopsUnsignalled (sender_dropped us)

-- The bytes are those read before and all of the chunks, and fewer than the bound.
abbrev pub IsWhole : List Chunk → BodyEnd → Bytes → Bytes → Type 0
IsWhole chunks end before body =
    (rest : Bytes) × StopsUnsignalled end
    × (whole_body chunks ≡ some rest)
    × (body ≡ before ++ rest)
    × (length body < max_upstream_error_capture_bytes)

module _ {V : Type 0} where
  Shows : List Chunk → BodyEnd → Bytes → Captured × ProxyContext V → Type 0
  Shows chunks end before r =
      (body : Bytes)
      → forwarded_body true (captured_body r.0) ≡ some body
      → IsWhole chunks end before body

  IsExposed : ProxyContext V → List Chunk → BodyEnd → Bytes → Type 0
  IsExposed c chunks end body =
      (c.route.expose_backend_errors ≡ true)
      × StopsUnsignalled end
      × (whole_body chunks ≡ some body)
      × (length body < max_upstream_error_capture_bytes)

  -- A whole body below the bound, on a route that exposes it.
  abbrev pub MayBeShown : ProxyContext V → List Chunk → BodyEnd → Type 0
  MayBeShown c chunks end =
      (c.route.expose_backend_errors ≡ true)
      × StopsUnsignalled end
      × ((body : Bytes) × (whole_body chunks ≡ some body)
          × (length body < max_upstream_error_capture_bytes))
