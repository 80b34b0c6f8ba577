-- ===== src/Observe/ClientInfo/Named/Clients.antt =====
-- The client that `forwarded_client` finds is the one that the headers name.
use Prim.Native.String.{[], ◌∷◌}
use onair.Prelude.{
  ◌≡◌, ◌≢◌, ◌⊎◌, inl, inr, refl, ap, ◌∙◌, String, true, Option, none, some, and_then, or_else,
  if◌then◌else◌, if_cases, List, [], ◌∷◌, ◌++◌, All, trim, split, split_once, is_empty,
}
use onair.Observe.ClientInfo.{
  AddressText, HeaderMap, get_all, flatten, last_of, find_for, eq_ignore_ascii_case,
  combined_header_values, clean_forwarded_value, first_entry, forwarded_header_client, first_part,
  first_forwarded_for, last_header_value, forwarded_client,
}
use onair.Observe.ClientInfo.Named.{
  FirstOf, first, IsFor, IsOther, Denotes, NamesFor, ByForwarded, ByForwardedFor, ByRealIp,
  no_value, no_text, value, Named, by_forwarded, by_forwarded_for, by_real_ip,
}
use onair.Observe.ClientInfo.Named.Reading.{clean-Denotes}
use onair.Observe.ClientInfo.Named.Scanning.{FirstOf-skip, LastIn-scan}

FoundFor : List String → Option String → Type 0
FoundFor parts none = All IsOther parts
FoundFor parts (some raw) =
    (before : List String) × (parameter : String) × (after : List String) × (parts
      ≡ before ++ (parameter ∷ after))
    × All IsOther before
    × IsFor parameter raw

FoundFor-skip :
    (part : String) (parts : List String) (o : Option String)
    → IsOther part
    → FoundFor parts o
    → FoundFor (part ∷ parts) o
unfolding FoundFor
FoundFor-skip part parts none h k = (h, k)
FoundFor-skip part parts (some raw) h (before, parameter, after, e, skipped, is_for) =
    (part ∷ before, parameter, after, ap (λ zs. part ∷ zs) e, (h, skipped), is_for)

find_for-FoundFor : (parts : List String) → FoundFor parts (find_for parts)
unfolding FoundFor find_for
find_for-FoundFor [] = tt
find_for-FoundFor (part ∷ parts) = go (split_once b'=' (trim part)) refl (find_for-FoundFor parts)
  where
    go :
        (o : Option (String × String))
        → split_once b'=' (trim part) ≡ o
        → FoundFor parts (find_for parts)
        → FoundFor (part ∷ parts) (elim o [
          | none ↦ find_for parts
          | some p ↦ if eq_ignore_ascii_case (trim p.0) "for" then some p.1 else find_for parts
        ])
    go none e ih = FoundFor-skip part parts (find_for parts) (λ raw (n, h, t). cc (e, h)) ih
    go (some (name, raw)) e ih =
        if_cases (FoundFor (part ∷ parts)) (eq_ignore_ascii_case (trim name) "for")
          (λ t. ([], part, parts, refl, tt, (name, e, t)))
          (λ f.
            FoundFor-skip part parts (find_for parts)
              (λ r (n, h, t).
                let same : name ≡ n = cc (e, h) in
                cc (f, ap (λ x. eq_ignore_ascii_case (trim x) "for") same ∙ t))
              ih)

module _ (text : AddressText) where
  first_entry-FirstOf :
      (es : List String)
      → FirstOf (λ entry. All IsOther (split b';' entry)) (NamesFor text) es (first_entry text es)
  unfolding first_entry FoundFor
  first_entry-FirstOf [] = FirstOf.all_skipped tt
  first_entry-FirstOf (e ∷ es) =
      go (find_for (split b';' e)) (find_for-FoundFor (split b';' e)) (first_entry-FirstOf es)
    where
      go :
          (o : Option String)
          → FoundFor (split b';' e) o
          → FirstOf
              (λ entry. All IsOther (split b';' entry))
              (NamesFor text)
              es
              (first_entry text es)
          → FirstOf
              (λ entry. All IsOther (split b';' entry))
              (NamesFor text)
              (e ∷ es)
              (elim o [
                | some raw_for ↦ clean_forwarded_value text raw_for
                | none ↦ first_entry text es
              ])
      go none h ih = FirstOf-skip _ _ e es (first_entry text es) h ih
      go (some raw) h ih = first [] e es refl tt (raw, h, clean-Denotes text raw)

  abbrev IsBlank : String → Type 0
  IsBlank part = trim part ≡ ""

  abbrev NamesPart : String → Option String → Type 0
  NamesPart part p = (trim part ≢ "") × Denotes text (trim part) p

  first_part-FirstOf :
      (parts : List String) → FirstOf IsBlank NamesPart parts (first_part text parts)
  unfolding first_part
  first_part-FirstOf [] = FirstOf.all_skipped tt
  first_part-FirstOf (part ∷ parts) =
      if_cases (FirstOf IsBlank NamesPart (part ∷ parts)) (is_empty (trim part))
        (λ t.
          FirstOf-skip _ _ part parts (first_part text parts) (blank (trim part) t)
            (first_part-FirstOf parts))
        (λ f.
          first [] part parts refl tt (λ e. cc (f, ap is_empty e), clean-Denotes text (trim part)))
    where
      blank : (s : String) → is_empty s ≡ true → s ≡ ""
      blank [] t = refl
      blank (c ∷ s) t = cc t

  forwarded-ByForwarded :
      (headers : HeaderMap)
      → ByForwarded text headers
          (and_then (combined_header_values headers "forwarded") (forwarded_header_client text))
  unfolding forwarded_header_client
  forwarded-ByForwarded headers =
      LastIn-scan _ _ (first_entry text) first_entry-FirstOf headers "forwarded"

  forwarded_for-ByForwardedFor :
      (headers : HeaderMap)
      → ByForwardedFor text headers
          (and_then (combined_header_values headers "x-forwarded-for") (first_forwarded_for text))
  unfolding first_forwarded_for
  forwarded_for-ByForwardedFor headers =
      LastIn-scan _ _ (first_part text) first_part-FirstOf headers "x-forwarded-for"

  last_of-end :
      (vs : List (Option String))
      → (vs ≡ [])
        ⊎ ((before : List (Option String)) × (v : Option String) × (vs ≡ before ++ (v ∷ []))
            × (last_of vs ≡ some v))
  last_of-end [] = inl refl
  last_of-end (v ∷ []) = inr ([], v, refl, refl)
  last_of-end (v ∷ w ∷ vs) = elim (last_of-end (w ∷ vs)) [
    | inl e ↦ cc e
    | inr (before, x, e, l) ↦ inr (v ∷ before, x, ap (λ zs. v ∷ zs) e, l)
  ]

  real_ip-ByRealIp :
      (headers : HeaderMap) → ByRealIp text headers (last_header_value text headers "x-real-ip")
  unfolding last_header_value
  real_ip-ByRealIp headers = elim (last_of-end (get_all headers "x-real-ip")) [
    | inl e ↦ rw e (no_value e)
    | inr (before, v, e, l) ↦ rw l (go v before e)
  ]
    where
      go :
          (v : Option String) (before : List (Option String))
          → get_all headers "x-real-ip" ≡ before ++ (v ∷ [])
          → ByRealIp text headers (and_then (flatten (some v)) (clean_forwarded_value text))
      go none before e = no_text before e
      go (some v) before e = value before v e (clean-Denotes text v)

  pub forwarded_client-Named :
      (headers : HeaderMap) → Named text headers (forwarded_client text headers)
  unfolding forwarded_client
  forwarded_client-Named headers =
      go _ _ _ (forwarded-ByForwarded headers) (forwarded_for-ByForwardedFor headers)
        (real_ip-ByRealIp headers)
    where
      go :
          (o p q : Option String)
          → ByForwarded text headers o
          → ByForwardedFor text headers p
          → ByRealIp text headers q
          → Named text headers (or_else o (or_else p q))
      go (some s) p q a b c = by_forwarded a
      go none (some s) q a b c = by_forwarded_for a b
      go none none q a b c = by_real_ip a b c
