-- ===== src/Proxy/Routing/Paths/Candidates.antt =====
-- Which capabilities a path asks for.
use Prim.Native.String.{[], ◌∷◌}
use onair.Prelude.{
  ◌≡◌, ◌≢◌, ◌⊎◌, ◌↔◌, inl, inr, refl, sym, subst, String, true, not, Bool-cases, List, [], ◌∷◌, map,
  Elem, filter, split, trim_start_matches, strip_prefix, unwrap_or, is_empty, StringSet, contains,
  ◌+ˢ◌,
}
use onair.Proxy.Routing.Paths.{
  path_capability_candidates, candidates_of, second_candidates, third_candidates, trimmed_path,
  normalize_segment,
}
use onair.Proxy.Routing.Paths.Names.{AllNormal, map_normalize-AllNormal}
use onair.Proxy.Routing.Paths.Members.{
  families, Has, insert_two_iff, first_candidates_iff, family_iff,
}

-- The segments of a path after /v1 that are not empty.
abbrev pub segments : String → List String
segments path =
    filter (λ segment. not (is_empty segment))
      (split b'/' (trim_start_matches b'/' (unwrap_or (strip_prefix "/v1/" path) path)))

-- A capability that the normalized segments ask for: the first, also without an 's' at its end and
-- with its family; the second and the third, alone and behind the first.
pub data Asks : List String → String → Type 0 where
  whole : {first : String} {rest : List String} → Asks (first ∷ rest) first
  singular :
      {first x : String} {rest : List String} → x ≢ "" → first ≡ x +ˢ "s" → Asks (first ∷ rest) x
  second : {first next : String} {rest : List String} → Asks (first ∷ next ∷ rest) next
  with_second :
      {first next : String} {rest : List String} → Asks (first ∷ next ∷ rest) (first +ˢ "_" +ˢ next)
  third : {first next last : String} {rest : List String} → Asks (first ∷ next ∷ last ∷ rest) last
  with_third :
      {first next last : String} {rest : List String}
      → Asks (first ∷ next ∷ last ∷ rest) (first +ˢ "_" +ˢ last)
  family :
      {first x : String} {rest : List String} → Elem (first, x) families → Asks (first ∷ rest) x

first-Asks :
    (first x : String) (rest : List String)
    → (x ≡ first) ⊎ ((x ≢ "") × (first ≡ x +ˢ "s"))
    → Asks (first ∷ rest) x
first-Asks first x rest (inl e) = subst (λ (y : String). Asks (first ∷ rest) y) (sym e) whole
first-Asks first x rest (inr (some, e)) = singular some e

at_name : {names : List String} {x y : String} → x ≡ y → Asks names y → Asks names x
at_name {names} e h = subst (λ (z : String). Asks names z) (sym e) h

candidates_of-Asks : (names : List String) (x : String) → Has (candidates_of names) x → Asks names x
unfolding candidates_of second_candidates third_candidates
candidates_of-Asks [] x h = cc h
candidates_of-Asks (a ∷ []) x h = elim ((family_iff a x _).0 h) [
  | inl m ↦ family m
  | inr k ↦ first-Asks a x [] ((first_candidates_iff a x).0 k)
]
candidates_of-Asks (a ∷ b ∷ []) x h = elim ((family_iff a x _).0 h) [
  | inl m ↦ family m
  | inr k ↦ elim ((insert_two_iff (a +ˢ "_" +ˢ b) b x _).0 k) [
    | inl e ↦ at_name e with_second
    | inr (inl e) ↦ at_name e second
    | inr (inr l) ↦ first-Asks a x (b ∷ []) ((first_candidates_iff a x).0 l)
  ]
]
candidates_of-Asks (a ∷ b ∷ c ∷ rest) x h = elim ((family_iff a x _).0 h) [
  | inl m ↦ family m
  | inr k ↦ elim ((insert_two_iff c (a +ˢ "_" +ˢ c) x _).0 k) [
    | inl e ↦ at_name e third
    | inr (inl e) ↦ at_name e with_third
    | inr (inr l) ↦ elim ((insert_two_iff (a +ˢ "_" +ˢ b) b x _).0 l) [
      | inl e ↦ at_name e with_second
      | inr (inl e) ↦ at_name e second
      | inr (inr l) ↦ first-Asks a x (b ∷ c ∷ rest) ((first_candidates_iff a x).0 l)
    ]
  ]
]

later-Has :
    (first x : String) (rest : List String) (set : StringSet)
    → Has set x
    → Has (third_candidates first rest (second_candidates first rest set)) x
unfolding second_candidates third_candidates
later-Has a x [] set h = h
later-Has a x (b ∷ []) set h = (insert_two_iff (a +ˢ "_" +ˢ b) b x set).1 (inr (inr h))
later-Has a x (b ∷ c ∷ rest) set h =
    (insert_two_iff c (a +ˢ "_" +ˢ c) x _).1
      (inr (inr ((insert_two_iff (a +ˢ "_" +ˢ b) b x set).1 (inr (inr h)))))

first-Has :
    (first x : String) (rest : List String)
    → (x ≡ first) ⊎ ((x ≢ "") × (first ≡ x +ˢ "s"))
    → Has (candidates_of (first ∷ rest)) x
unfolding candidates_of
first-Has a x rest h =
    (family_iff a x _).1 (inr (later-Has a x rest _ ((first_candidates_iff a x).1 h)))

one_of : {P Q R : Type 0} → P ⊎ Q → P ⊎ Q ⊎ R
one_of (inl p) = inl p
one_of (inr q) = inr (inl q)

second-Has :
    (a b x : String) (rest : List String)
    → (x ≡ a +ˢ "_" +ˢ b) ⊎ (x ≡ b)
    → Has (candidates_of (a ∷ b ∷ rest)) x
unfolding candidates_of second_candidates third_candidates
second-Has a b x [] h =
    (family_iff a x _).1 (inr ((insert_two_iff (a +ˢ "_" +ˢ b) b x _).1 (one_of h)))
second-Has a b x (c ∷ rest) h = (family_iff a x _).1 (
    inr (
      (insert_two_iff c (a +ˢ "_" +ˢ c) x _).1
        (inr (inr ((insert_two_iff (a +ˢ "_" +ˢ b) b x _).1 (one_of h))))))

Asks-candidates : (names : List String) (x : String) → Asks names x → Has (candidates_of names) x
unfolding candidates_of second_candidates third_candidates
Asks-candidates _ x (whole {rest = rest}) = first-Has x x rest (inl refl)
Asks-candidates _ x (singular {first = a} {rest = rest} some e) = first-Has a x rest (inr (some, e))
Asks-candidates _ x (second {first = a} {rest = rest}) = second-Has a x x rest (inr refl)
Asks-candidates _ _ (with_second {first = a} {next = b} {rest = rest}) =
    second-Has a b (a +ˢ "_" +ˢ b) rest (inl refl)
Asks-candidates _ x (third {first = a}) =
    (family_iff a x _).1 (inr ((insert_two_iff x (a +ˢ "_" +ˢ x) x _).1 (inl refl)))
Asks-candidates _ _ (with_third {first = a} {last = c}) =
    (family_iff a (a +ˢ "_" +ˢ c) _).1
      (inr ((insert_two_iff c (a +ˢ "_" +ˢ c) (a +ˢ "_" +ˢ c) _).1 (inr (inl refl))))
Asks-candidates _ x (family {first = a} m) = (family_iff a x _).1 (inl m)

no_segments :
    (text : String)
    → is_empty text ≡ true
    → filter (λ segment. not (is_empty segment)) (split b'/' text) ≡ []
no_segments [] t = refl
no_segments (c ∷ text) t = cc t

-- The capability candidates of a path are exactly those that its normalized segments ask for.
pub path_capability_candidates_iff :
    (path : String)
    → (names : List String) × AllNormal (segments path) names
      × ((x : String) → (contains (path_capability_candidates path) x ≡ true) ↔ Asks names x)
unfolding path_capability_candidates trimmed_path
path_capability_candidates_iff path =
    let names = map normalize_segment (segments path) in
    (
      names,
      map_normalize-AllNormal (segments path),
      λ x. elim (Bool-cases (is_empty (trimmed_path path))) [
        | inl t ↦
            let none_left : segments path ≡ [] = no_segments (trimmed_path path) t in
            rw t (rw none_left (λ h. cc h, λ h. elim h [ ]))
        | inr f ↦ rw f (candidates_of-Asks names x, Asks-candidates names x)
      ],
    )
