-- ===== src/Observe/ClientInfo/Named/Scanning.antt =====
-- The scans of the headers, from the last part on.
use Prim.Native.Char.{code}
use Prim.Native.String.{[], ◌∷◌}
use text.Mathlib.TextLemmas
use text.Mathlib.TextLemmas.{nil-append, cons-append}
use onair.Prelude.{
  ℕ, ◌≡◌, ◌⊎◌, inl, inr, refl, sym, ap, ◌∙◌, subst, String, Char, Bool-cases, Option, none, some,
  and_then, eqb, arith, List, [], ◌∷◌, ◌++◌, map, All, All-append, append_assoc, append-nil, Elem,
  here, there, split, cons_first, ◌+ˢ◌,
}
use onair.Observe.ClientInfo.{
  HeaderMap, get_all, reversed, rsplit, joined_values, combined_header_values,
}
use onair.Observe.ClientInfo.Named.{
  FirstOf, LastOf, first, last, parts_of, Listed, missing, unreadable, listed, LastIn, absent,
  present,
}

reversed-append : (xs ys : List String) → reversed (xs ++ ys) ≡ reversed ys ++ reversed xs
unfolding reversed
reversed-append [] ys = sym (append-nil (reversed ys))
reversed-append (x ∷ xs) ys =
    ap (λ zs. zs ++ (x ∷ [])) (reversed-append xs ys)
    ∙ append_assoc (reversed ys) (reversed xs) (x ∷ [])

reversed_twice : (xs : List String) → reversed (reversed xs) ≡ xs
unfolding reversed
reversed_twice [] = refl
reversed_twice (x ∷ xs) =
    reversed-append (reversed xs) (x ∷ []) ∙ ap (λ zs. x ∷ zs) (reversed_twice xs)

All-reversed : (P : String → Type 0) (xs : List String) → All P xs → All P (reversed xs)
unfolding reversed
All-reversed P [] h = tt
All-reversed P (x ∷ xs) h = All-append P (reversed xs) (x ∷ []) (All-reversed P xs h.1) (h.0, tt)

-- The first of the parts in reverse order is the last of them.
FirstOf-reversed :
    (Skips : String → Type 0) (Gives : String → Option String → Type 0) (xs : List String)
    (o : Option String)
    → FirstOf Skips Gives (reversed xs) o
    → LastOf Skips Gives xs o
unfolding reversed
FirstOf-reversed Skips Gives xs _ (FirstOf.all_skipped h) =
    LastOf.all_skipped (subst (All Skips) (reversed_twice xs) (All-reversed Skips (reversed xs) h))
FirstOf-reversed Skips Gives xs o (first before part after e h g) =
    last (reversed after) part (reversed before)
      (sym (reversed_twice xs)
        ∙ ap reversed e
        ∙ reversed-append before (part ∷ after)
        ∙ append_assoc (reversed after) (part ∷ []) (reversed before))
      (All-reversed Skips before h) g

-- One more part that is skipped.
pub FirstOf-skip :
    (Skips : String → Type 0) (Gives : String → Option String → Type 0) (x : String)
    (xs : List String) (o : Option String)
    → Skips x
    → FirstOf Skips Gives xs o
    → FirstOf Skips Gives (x ∷ xs) o
FirstOf-skip Skips Gives x xs _ s (FirstOf.all_skipped h) = FirstOf.all_skipped (s, h)
FirstOf-skip Skips Gives x xs o s (first before part after e h g) =
    first (x ∷ before) part after (ap (λ zs. x ∷ zs) e) (s, h) g

split-some : (k : ℕ) (s : String) → (p : String) × (ps : List String) × (split k s ≡ p ∷ ps)
split-some k [] = ("", [], refl)
split-some k (c ∷ s) =
    let (p, ps, e) = split-some k s in
    elim (Bool-cases (eqb (code c) k)) [
      | inl t ↦ ("", split k s, rw t refl)
      | inr f ↦ (c ∷ p, ps, rw f (rw e refl))
    ]

cons_first-append :
    (d : Char) (xs ys : List String)
    → (p : String) × (ps : List String) × (xs ≡ p ∷ ps)
    → cons_first d (xs ++ ys) ≡ cons_first d xs ++ ys
cons_first-append d xs ys (p, ps, e) = rw e refl

split-append :
    (c : Char) (s t : String) → split (code c) (s +ˢ (c ∷ t)) ≡ split (code c) s ++ split (code c) t
split-append c [] t = rw nil-append (ground arith)
split-append c (d ∷ s) t = rw cons-append (
    rw (split-append c s t) (elim (Bool-cases (eqb (code d) (code c))) [
      | inl t ↦ rw t refl
      | inr f ↦
          rw f (cons_first-append d (split (code c) s) (split (code c) t) (split-some (code c) s))
    ]))

comma-between : (s t : String) → s +ˢ "," +ˢ t ≡ s +ˢ ("," ∷ t)
comma-between s t =
    TextLemmas.append_assoc s "," t
    ∙ ap (λ (r : String). s +ˢ r)
        (cons-append "," "" t ∙ ap (λ (r : String). "," ∷ r) (nil-append t))

-- The values joined by commas hold the parts of each, in order; one that is no text spoils them.
joined-parts :
    (combined : String) (vs : List (Option String))
    → (Elem none vs × (joined_values combined vs ≡ none))
      ⊎ ((ws : List String) × (h : String) × (vs ≡ map some ws)
          × (joined_values combined vs ≡ some h)
          × (split b',' h ≡ split b',' combined ++ parts_of ws))
unfolding joined_values
joined-parts combined [] = inr ([], combined, refl, refl, sym (append-nil _))
joined-parts combined (none ∷ vs) = inl (here refl, refl)
joined-parts combined (some v ∷ vs) = elim (joined-parts (combined +ˢ "," +ˢ v) vs) [
  | inl h ↦ inl (there h.0, h.1)
  | inr h ↦
      let (ws, t, e, j, parts) = h in
      let whole : split b',' (combined +ˢ "," +ˢ v) ≡ split b',' combined ++ split b',' v =
        ap (split b',') (comma-between combined v) ∙ split-append "," combined v in
      inr (
        v ∷ ws,
        t,
        ap (λ xs. some v ∷ xs) e,
        j,
        parts
            ∙ ap (λ xs. xs ++ parts_of ws) whole
            ∙ append_assoc (split b',' combined) (split b',' v) (parts_of ws),
      )
]

-- What is joined of a header, with its parts.
IsCombined : HeaderMap → String → Option String → Type 0
IsCombined headers name none = Listed headers name none
IsCombined headers name (some h) = Listed headers name (some (split b',' h))

combined_header_values-IsCombined :
    (headers : HeaderMap) (name : String)
    → IsCombined headers name (combined_header_values headers name)
unfolding IsCombined combined_header_values
combined_header_values-IsCombined headers name = go (get_all headers name) refl
  where
    go :
        (vs : List (Option String))
        → get_all headers name ≡ vs
        → IsCombined headers name
            (elim vs [ [] ↦ none | none ∷ vs ↦ none | some v ∷ vs ↦ joined_values v vs ])
    go [] e = missing e
    go (none ∷ vs) e = unreadable (rw e (here refl))
    go (some v ∷ vs) e = elim (joined-parts v vs) [
      | inl h ↦ rw h.1 (unreadable (rw e (there h.0)))
      | inr h ↦
          let (ws, t, same, j, parts) = h in
          rw j (rw parts (listed v ws (e ∙ ap (λ xs. some v ∷ xs) same)))
    ]

-- The last part of the joined values that is not skipped.
pub LastIn-scan :
    (Skips : String → Type 0) (Gives : String → Option String → Type 0)
    (scan : List String → Option String)
    → ((parts : List String) → FirstOf Skips Gives parts (scan parts))
    → (headers : HeaderMap) (name : String)
    → LastIn Skips Gives headers name
        (and_then (combined_header_values headers name) (λ v. scan (rsplit b',' v)))
unfolding rsplit IsCombined
LastIn-scan Skips Gives scan scans headers name =
    go (combined_header_values headers name) (combined_header_values-IsCombined headers name)
  where
    go :
        (o : Option String)
        → IsCombined headers name o
        → LastIn Skips Gives headers name (and_then o (λ v. scan (rsplit b',' v)))
    go none h = absent h
    go (some v) h =
        present (split b',' v) h
          (FirstOf-reversed Skips Gives (split b',' v) _ (scans (rsplit b',' v)))
