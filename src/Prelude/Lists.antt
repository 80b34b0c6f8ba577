-- ===== src/Prelude/Lists.antt =====
-- Lists measured by native numbers, Boolean searches over them, and predicates by recursion.
use Prim.Native.Nat.{ℕ, zero, suc, ◌+◌, ◌-◌}
use mathlib.Core.Path.{◌≡◌, refl, sym, ap}
use mathlib.Core.Logic.{◌↔◌, ◌⊎◌, inl, inr}
use mathlib.Core.Bool.{Bool, true, false, ◌||◌}
use mathlib.Core.List.{List, [], ◌∷◌, ◌++◌, map}
use mathlib.Core.Option.{Option, none, some}
use native.Mathlib.Omega.{arith}
use onair.Prelude.Tests.{if◌then◌else◌, Bool-cases}

module _ {ℓ} {A : Type ℓ} where
  abbrev pub length : List A → ℕ
  length [] = 0
  length (x ∷ xs) = suc (length xs)

  abbrev pub take : ℕ → List A → List A
  take zero xs = []
  take (suc n) [] = []
  take (suc n) (x ∷ xs) = x ∷ take n xs

  abbrev pub drop : ℕ → List A → List A
  drop zero xs = xs
  drop (suc n) [] = []
  drop (suc n) (x ∷ xs) = drop n xs

  abbrev pub head? : List A → Option A
  head? [] = none
  head? (x ∷ xs) = some x

  abbrev pub find : (A → Bool) → List A → Option A
  find p [] = none
  find p (x ∷ xs) = if p x then some x else find p xs

  abbrev pub any : (A → Bool) → List A → Bool
  any p [] = false
  any p (x ∷ xs) = p x || any p xs

  abbrev pub filter : (A → Bool) → List A → List A
  filter p [] = []
  filter p (x ∷ xs) = let rest = filter p xs in if p x then x ∷ rest else rest

  -- Every element, and some element, as predicates that compute to products and sums.
  abbrev pub All {κ} : (A → Type κ) → List A → Type κ
  All P [] = Unit
  All P (x ∷ xs) = P x × All P xs

  -- `x` stands in the list, with its place.
  pub data Elem (x : A) : List A → Type ℓ where
    here : {y : A} {ys : List A} → x ≡ y → Elem x (y ∷ ys)
    there : {y : A} {ys : List A} → Elem x ys → Elem x (y ∷ ys)

  pub length-append : (xs ys : List A) → length (xs ++ ys) ≡ length xs + length ys
  length-append [] ys = omega arith
  length-append (x ∷ xs) ys = omega (arith, length-append xs ys)

  pub take-append-drop : (n : ℕ) (xs : List A) → take n xs ++ drop n xs ≡ xs
  take-append-drop zero xs = refl
  take-append-drop (suc n) [] = refl
  take-append-drop (suc n) (x ∷ xs) = ap (λ l. x ∷ l) (take-append-drop n xs)

  pub length-drop : (n : ℕ) (xs : List A) → length (drop n xs) ≡ length xs - n
  length-drop zero xs = omega arith
  length-drop (suc n) [] = omega arith
  length-drop (suc n) (x ∷ xs) = omega (arith, length-drop n xs)

  pub All-Elem {κ} : (P : A → Type κ) {x : A} {xs : List A} → All P xs → Elem x xs → P x
  All-Elem P h (here e) = rw e h.0
  All-Elem P h (there m) = All-Elem P h.1 m

  pub All-append {κ} : (P : A → Type κ) (xs ys : List A) → All P xs → All P ys → All P (xs ++ ys)
  All-append P [] ys h k = k
  All-append P (x ∷ xs) ys h k = (h.0, All-append P xs ys h.1 k)

  pub Elem-append : {x : A} (xs ys : List A) → Elem x (xs ++ ys) → Elem x xs ⊎ Elem x ys
  Elem-append [] ys m = inr m
  Elem-append (z ∷ xs) ys (here e) = inl (here e)
  Elem-append (z ∷ xs) ys (there m) = elim (Elem-append xs ys m) [
    | inl l ↦ inl (there l)
    | inr r ↦ inr r
  ]

  -- A search that succeeds returns an element of the list that passes the test.
  pub find-Elem :
      (p : A → Bool) (xs : List A) {x : A} → find p xs ≡ some x → Elem x xs × (p x ≡ true)
  find-Elem p [] e = cc e
  find-Elem p (y ∷ ys) {x} e = elim (Bool-cases (p y)) [
    | inl t ↦ let same : y ≡ x = ground arith in (here (sym same), rw same at t)
    | inr f ↦ let r = find-Elem p ys (rw f at e) in (there r.0, r.1)
  ]

  pub append_assoc : (xs ys zs : List A) → (xs ++ ys) ++ zs ≡ xs ++ (ys ++ zs)
  append_assoc [] ys zs = refl
  append_assoc (x ∷ xs) ys zs = ap (λ l. x ∷ l) (append_assoc xs ys zs)

  pub append-nil : (xs : List A) → xs ++ [] ≡ xs
  append-nil [] = refl
  append-nil (x ∷ xs) = ap (λ l. x ∷ l) (append-nil xs)

  pub length-take_add_drop :
      (n : ℕ) (xs : List A) → length (drop n xs) + length (take n xs) ≡ length xs
  length-take_add_drop zero xs = omega arith
  length-take_add_drop (suc n) [] = omega arith
  length-take_add_drop (suc n) (x ∷ xs) = omega (arith, length-take_add_drop n xs)

  pub Elem-append_left : {x : A} (xs ys : List A) → Elem x xs → Elem x (xs ++ ys)
  Elem-append_left [] ys m = elim m [ ]
  Elem-append_left (z ∷ xs) ys (here e) = here e
  Elem-append_left (z ∷ xs) ys (there m) = there (Elem-append_left xs ys m)

  pub Elem-append_right : {x : A} (xs ys : List A) → Elem x ys → Elem x (xs ++ ys)
  Elem-append_right [] ys m = m
  Elem-append_right (z ∷ xs) ys m = there (Elem-append_right xs ys m)

  pub any_iff :
      (p : A → Bool) (xs : List A) → (any p xs ≡ true) ↔ ((x : A) × Elem x xs × (p x ≡ true))
  any_iff p xs = (to xs, λ (x, m, e). from xs x m e)
    where
      to : (xs : List A) → any p xs ≡ true → (x : A) × Elem x xs × (p x ≡ true)
      to [] e = cc e
      to (y ∷ ys) e = elim (Bool-cases (p y)) [
        | inl t ↦ (y, here refl, t)
        | inr f ↦ let (x, m, t) = to ys (rw f at e) in (x, there m, t)
      ]

      from : (xs : List A) (x : A) → Elem x xs → p x ≡ true → any p xs ≡ true
      from [] x m e = elim m [ ]
      from (y ∷ ys) x (here same) e = rw (sym same) (rw e refl)
      from (y ∷ ys) x (there m) e = ground (arith, from ys x m e)

pub map-append {ℓ κ} :
    {A : Type ℓ} {B : Type κ} (f : A → B) (xs ys : List A) → map f (xs ++ ys) ≡ map f xs ++ map f ys
map-append f [] ys = refl
map-append f (x ∷ xs) ys = ap (λ l. f x ∷ l) (map-append f xs ys)

-- A step that writes and changes the state, and the step that follows it.
abbrev pub and_step : {A S : Type 0} → List A × S → (S → List A × S) → List A × S
and_step first next = let second = next first.1 in (first.0 ++ second.0, second.1)
