-- ===== src/Proxy/Routing/Paths/Members.antt =====
-- What the single steps that collect capability candidates add.
use Prim.Native.Char.{code}
use Prim.Native.String
use Prim.Native.String.{[], ◌∷◌}
use text.Mathlib.TextPositions.{len_utf8-pos}
use text.Mathlib.TextLemmas.{cons-append}
use onair.Prelude.{
  ◌≡◌, ◌≢◌, ◌≤◌, ◌⊎◌, ◌↔◌, inl, inr, refl, sym, ap, ◌∙◌, subst, String, Char, Bool, true, false,
  ◌&&◌, ◌||◌, Bool-cases, eqb, if_cases, arith, List, [], ◌∷◌, Elem, is_empty, StringSet, contains,
  insert, contains-insert, ◌==◌, eq_iff, any, any_iff, ◌+ˢ◌,
}
use onair.Proxy.Routing.Paths.{
  first_candidates, family_candidates, ends_with, longer_than_one, singularize,
}

-- The capabilities that a first segment stands for, besides its own name.
abbrev pub families : List (String × String)
families =
    ("chat", "completions")
    ∷ ("chat", "chat_completions")
    ∷ ("responses", "responses_via_chat_completions")
    ∷ ("messages", "messages")
    ∷ ("images", "image")
    ∷ ("files", "file")
    ∷ ("models", "model")
    ∷ ("audio", "audio")
    ∷ []

abbrev pub Has : StringSet → String → Type 0
Has set x = contains set x ≡ true

insert_iff : (y x : String) (set : StringSet) → Has (insert y set) x ↔ ((x ≡ y) ⊎ Has set x)
insert_iff y x set = (to, from)
  where
    to : Has (insert y set) x → (x ≡ y) ⊎ Has set x
    to h = elim (Bool-cases (y == x)) [
      | inl t ↦ inl (sym ((eq_iff y x).0 t))
      | inr f ↦ inr (ground (arith, h, contains-insert y x set))
    ]

    from : (x ≡ y) ⊎ Has set x → Has (insert y set) x
    from (inl e) = ground (arith, contains-insert y x set, (eq_iff y x).1 (sym e))
    from (inr h) = ground (arith, contains-insert y x set)

-- An 's' at the end.
empty-ends : (s : String) → is_empty s ≡ true → ends_with "s" s ≡ true → ⊥
unfolding ends_with
empty-ends [] t h = cc h
empty-ends (c ∷ s) t h = cc t

ends_with-singularize : (s : String) → ends_with "s" s ≡ true → s ≡ singularize s +ˢ "s"
unfolding ends_with singularize
ends_with-singularize [] h = cc h
ends_with-singularize (c ∷ s) h = elim (Bool-cases ("s" == (c ∷ s))) [
  | inl t ↦ subst (λ (r : String). r ≡ singularize r +ˢ "s") ((eq_iff "s" (c ∷ s)).0 t) refl
  | inr f ↦
      let ends : ends_with "s" s ≡ true = ground (arith, h) in
      if_cases (λ (r : String). c ∷ s ≡ r +ˢ "s") (eqb (code c) b's' && is_empty s)
        (λ t. absurd (empty-ends s (ground arith) ends))
        (λ g. rw cons-append (ap (λ (r : String). c ∷ r) (ends_with-singularize s ends)))
]

not_empty : (x : String) → is_empty (x +ˢ "s") ≡ true → ⊥
not_empty [] h = cc h
not_empty (c ∷ x) h = cc (subst (λ (r : String). is_empty r ≡ true) (cons-append c x "s") h)

singularize-append : (x : String) → singularize (x +ˢ "s") ≡ x
unfolding singularize
singularize-append [] = refl
singularize-append (c ∷ x) = rw cons-append (
    if_cases (λ (r : String). r ≡ c ∷ x) (eqb (code c) b's' && is_empty (x +ˢ "s"))
      (λ t. absurd (not_empty x (ground arith)))
      (λ f. ap (λ (r : String). c ∷ r) (singularize-append x)))

ends_with-append : (x : String) → ends_with "s" (x +ˢ "s") ≡ true
unfolding ends_with
ends_with-append [] = refl
ends_with-append (c ∷ x) = rw cons-append (rw (ends_with-append x) (ground arith))

len-positive : (c : Char) (s : String) → 1 ≤ String.len (c ∷ s)
len-positive c s = let (k, e) = len_utf8-pos c in omega (arith, e, String.len.cons c s)

len-some : (x : String) → 1 ≤ String.len (x +ˢ "s")
len-some [] = omega arith
len-some (c ∷ x) = rw cons-append (len-positive c (x +ˢ "s"))

longer-append : (x : String) → x ≢ "" → longer_than_one (x +ˢ "s") ≡ true
longer-append [] h = absurd (h refl)
longer-append (c ∷ x) h =
    rw cons-append
      (let (k, e) = len_utf8-pos c in ground (arith, e, len-some x, String.len.cons c (x +ˢ "s")))

longer-nonempty : (x : String) → longer_than_one (x +ˢ "s") ≡ true → x ≢ ""
longer-nonempty x t e = cc (subst (λ (r : String). longer_than_one (r +ˢ "s") ≡ true) e t)

pub first_candidates_iff :
    (first x : String)
    → Has (first_candidates first []) x ↔ ((x ≡ first) ⊎ ((x ≢ "") × (first ≡ x +ˢ "s")))
unfolding first_candidates
first_candidates_iff first x = elim (Bool-cases (ends_with "s" first && longer_than_one first)) [
  | inl t ↦ rw t (to_plural t, from_plural)
  | inr f ↦ rw f (to_single, from_single f)
]
  where
    to_single : Has (insert first []) x → (x ≡ first) ⊎ ((x ≢ "") × (first ≡ x +ˢ "s"))
    to_single h = elim ((insert_iff first x []).0 h) [ inl e ↦ inl e | inr k ↦ cc k ]

    to_plural :
        (ends_with "s" first && longer_than_one first) ≡ true
        → Has (insert (singularize first) (insert first [])) x
        → (x ≡ first) ⊎ ((x ≢ "") × (first ≡ x +ˢ "s"))
    to_plural t h = elim ((insert_iff (singularize first) x (insert first [])).0 h) [
      | inl e ↦
          let split_up : first ≡ x +ˢ "s" =
            ends_with-singularize first (ground arith) ∙ ap (λ (r : String). r +ˢ "s") (sym e) in
          inr (
            longer-nonempty x
                (subst (λ (r : String). longer_than_one r ≡ true) split_up (ground arith)),
            split_up,
          )
      | inr k ↦ to_single k
    ]

    from_plural :
        (x ≡ first) ⊎ ((x ≢ "") × (first ≡ x +ˢ "s"))
        → Has (insert (singularize first) (insert first [])) x
    from_plural (inl e) =
        (insert_iff (singularize first) x (insert first [])).1
          (inr ((insert_iff first x []).1 (inl e)))
    from_plural (inr (some, e)) =
        (insert_iff (singularize first) x (insert first [])).1
          (inl (sym (ap singularize e ∙ singularize-append x)))

    from_single :
        (ends_with "s" first && longer_than_one first) ≡ false
        → (x ≡ first) ⊎ ((x ≢ "") × (first ≡ x +ˢ "s"))
        → Has (insert first []) x
    from_single f (inl e) = (insert_iff first x []).1 (inl e)
    from_single f (inr (some, e)) =
        let plural : (ends_with "s" first && longer_than_one first) ≡ true =
          rw e (ground (arith, ends_with-append x, longer-append x some)) in
        cc (f, plural)

-- Two more capabilities.
pub insert_two_iff :
    (y z x : String) (set : StringSet)
    → Has (insert y (insert z set)) x ↔ ((x ≡ y) ⊎ (x ≡ z) ⊎ Has set x)
insert_two_iff y z x set = (to, from)
  where
    to : Has (insert y (insert z set)) x → (x ≡ y) ⊎ (x ≡ z) ⊎ Has set x
    to h = elim ((insert_iff y x (insert z set)).0 h) [
      | inl e ↦ inl e
      | inr k ↦ inr ((insert_iff z x set).0 k)
    ]

    from : (x ≡ y) ⊎ (x ≡ z) ⊎ Has set x → Has (insert y (insert z set)) x
    from (inl e) = (insert_iff y x (insert z set)).1 (inl e)
    from (inr k) = (insert_iff y x (insert z set)).1 (inr ((insert_iff z x set).1 k))

is_family : String → String → Bool
is_family first x = any (λ (p : String × String). first == p.0 && p.1 == x) families

FamilyTest : String → String → StringSet → Type 0
FamilyTest first x set =
    contains (family_candidates first set) x ≡ (is_family first x || contains set x)

FamilyTest-at :
    (first name x : String) (set : StringSet)
    → (first == name) ≡ true
    → FamilyTest name x set
    → FamilyTest first x set
FamilyTest-at first name x set t h =
    subst (λ (f : String). FamilyTest f x set) (sym ((eq_iff first name).0 t)) h

family_test : (first x : String) (set : StringSet) → FamilyTest first x set
unfolding FamilyTest family_candidates is_family
family_test first x set = elim (Bool-cases (first == "chat")) [
  | inl t ↦ FamilyTest-at first "chat" x set t (
      ground (
        arith,
        contains-insert "completions" x (insert "chat_completions" set),
        contains-insert "chat_completions" x set,
      ))
  | inr not_chat ↦ elim (Bool-cases (first == "responses")) [
    | inl t ↦
        FamilyTest-at first "responses" x set t
          (ground (arith, contains-insert "responses_via_chat_completions" x set))
    | inr not_responses ↦ elim (Bool-cases (first == "messages")) [
      | inl t ↦
          FamilyTest-at first "messages" x set t (ground (arith, contains-insert "messages" x set))
      | inr not_messages ↦ elim (Bool-cases (first == "images")) [
        | inl t ↦
            FamilyTest-at first "images" x set t (ground (arith, contains-insert "image" x set))
        | inr not_images ↦ elim (Bool-cases (first == "files")) [
          | inl t ↦
              FamilyTest-at first "files" x set t (ground (arith, contains-insert "file" x set))
          | inr not_files ↦ elim (Bool-cases (first == "models")) [
            | inl t ↦
                FamilyTest-at first "models" x set t (ground (arith, contains-insert "model" x set))
            | inr not_models ↦ elim (Bool-cases (first == "audio")) [
              | inl t ↦
                  FamilyTest-at first "audio" x set t
                    (ground (arith, contains-insert "audio" x set))
              | inr not_audio ↦ ground arith
            ]
          ]
        ]
      ]
    ]
  ]
]

or_left : (a b : Bool) → a ≡ true → (a || b) ≡ true
or_left a b h = rw h refl

or_right : (a b : Bool) → b ≡ true → (a || b) ≡ true
or_right true b h = refl
or_right false b h = h

right_of : (a b : Bool) → (a || b) ≡ true → a ≡ false → b ≡ true
right_of a b h f = subst (λ (t : Bool). (t || b) ≡ true) f h

pub family_iff :
    (first x : String) (set : StringSet)
    → Has (family_candidates first set) x ↔ (Elem (first, x) families ⊎ Has set x)
unfolding FamilyTest is_family
family_iff first x set = (to, from)
  where
    to : Has (family_candidates first set) x → Elem (first, x) families ⊎ Has set x
    to h = elim (Bool-cases (is_family first x)) [
      | inl t ↦
          let (p, m, same) =
            (any_iff (λ (p : String × String). first == p.0 && p.1 == x) families).0 t in
          let one : first ≡ p.0 = (eq_iff first p.0).0 (ground arith) in
          let two : p.1 ≡ x = (eq_iff p.1 x).0 (ground arith) in
          inl (subst (λ (q : String × String). Elem q families) (cc (one, two)) m)
      | inr f ↦
          inr (right_of (is_family first x) (contains set x) (sym (family_test first x set) ∙ h) f)
    ]

    from : Elem (first, x) families ⊎ Has set x → Has (family_candidates first set) x
    from (inl m) =
        let t : is_family first x ≡ true =
          (any_iff (λ (p : String × String). first == p.0 && p.1 == x) families).1
            ((first, x), m, ground (arith, (eq_iff first first).1 refl, (eq_iff x x).1 refl)) in
        family_test first x set ∙ or_left (is_family first x) (contains set x) t
    from (inr h) = family_test first x set ∙ or_right (is_family first x) (contains set x) h
