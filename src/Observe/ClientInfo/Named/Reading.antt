-- ===== src/Observe/ClientInfo/Named/Reading.antt =====
-- How a value of a header is read as an address.
use Prim.Native.String.{[], ◌∷◌}
use onair.Prelude.{
  ◌≡◌, inl, inr, refl, subst, String, true, ◌||◌, Bool-cases, Option, none, some, and_then, or_else,
  map_option, if_cases, arith,
}
use onair.Core.Cidr.{IpAddr}
use onair.Observe.ClientInfo.{
  SocketAddr, AddressText, eq_ignore_ascii_case, starts_with_underscore, normalized_ip_or_socket,
  clean_forwarded_value,
}
use onair.Observe.ClientInfo.Named.{
  unquoted, IsObfuscated, bracketed_text, Reads, socket, address, bracketed, no_address, Denotes,
  obfuscated, plain,
}

test-IsObfuscated :
    (s : String)
    → (eq_ignore_ascii_case s "unknown" || starts_with_underscore s) ≡ true
    → IsObfuscated s
test-IsObfuscated [] t = inl (ground arith)
test-IsObfuscated (c ∷ s) t = elim (Bool-cases (eq_ignore_ascii_case (c ∷ s) "unknown")) [
  | inl same ↦ inl same
  | inr other ↦ inr (c, s, refl, ground arith)
]

IsObfuscated-test :
    (s : String)
    → IsObfuscated s
    → (eq_ignore_ascii_case s "unknown" || starts_with_underscore s) ≡ true
IsObfuscated-test s (inl e) = rw e refl
IsObfuscated-test s (inr (c, rest, e, k)) = rw e (ground (arith, k))

module _ (text : AddressText) where
  normalized-Reads : (s : String) → Reads text s (normalized_ip_or_socket text s)
  unfolding normalized_ip_or_socket
  normalized-Reads s = by_socket (text.parse_socket s) refl
    where
      in_brackets :
          (p : String × String) (o : Option IpAddr)
          → bracketed_text s ≡ some p
          → text.parse_ip p.0 ≡ o
          → text.parse_socket s ≡ none
          → text.parse_ip s ≡ none
          → Reads text s (map_option text.ip_text o)
      in_brackets (inner, rest) none e h no_socket no_ip = no_address no_socket no_ip (λ i r k.
          let same : inner ≡ i = cc (e, k) in subst (λ (x : String). text.parse_ip x ≡ none) same h)
      in_brackets (inner, rest) (some ip) e h no_socket no_ip = bracketed no_socket no_ip e h

      by_bracket :
          (o : Option (String × String))
          → bracketed_text s ≡ o
          → text.parse_socket s ≡ none
          → text.parse_ip s ≡ none
          → Reads text s
              (map_option text.ip_text (and_then o (λ (p : String × String). text.parse_ip p.0)))
      by_bracket none e no_socket no_ip = no_address no_socket no_ip (λ inner rest h. cc (e, h))
      by_bracket (some p) e no_socket no_ip =
          in_brackets p (text.parse_ip p.0) e refl no_socket no_ip

      by_ip :
          (o : Option IpAddr)
          → text.parse_ip s ≡ o
          → text.parse_socket s ≡ none
          → Reads text s (
              or_else (map_option text.ip_text o) (
                map_option text.ip_text
                  (and_then (bracketed_text s) (λ (p : String × String). text.parse_ip p.0))))
      by_ip none e no_socket = by_bracket (bracketed_text s) refl no_socket e
      by_ip (some ip) e no_socket = address no_socket e

      by_socket :
          (o : Option SocketAddr)
          → text.parse_socket s ≡ o
          → Reads text s (
              or_else (map_option text.socket_text o) (
                or_else (map_option text.ip_text (text.parse_ip s)) (
                  map_option text.ip_text
                    (and_then (bracketed_text s) (λ (p : String × String). text.parse_ip p.0)))))
      by_socket none e = by_ip (text.parse_ip s) refl e
      by_socket (some a) e = socket e

  pub clean-Denotes : (value : String) → Denotes text value (clean_forwarded_value text value)
  unfolding clean_forwarded_value
  clean-Denotes value =
      let s = unquoted value in
      let test = eq_ignore_ascii_case s "unknown" || starts_with_underscore s in
      if_cases (Denotes text value) test (λ t. obfuscated (test-IsObfuscated s t))
        (λ f. plain (λ h. cc (IsObfuscated-test s h, f)) (normalized-Reads s))
