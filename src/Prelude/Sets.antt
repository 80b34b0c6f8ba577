-- ===== src/Prelude/Sets.antt =====
-- `BTreeSet<String>` as a list in ascending order, with the tests that the program makes.
use Prim.Native.Nat.{Ordering}
use Prim.Native.String.{String, compare}
use mathlib.Core.Path.{◌≡◌, refl, sym}
use mathlib.Core.Logic.{◌↔◌, inl, inr}
use mathlib.Core.Bool.{Bool, true, false, ◌||◌}
use mathlib.Core.List.{List, [], ◌∷◌}
use native.Mathlib.Omega.{arith}
use text.Mathlib.Text.{◌==◌}
use text.Mathlib.TextEquality.{eq_iff, path_by_compare}
use onair.Prelude.Tests.{if◌then◌else◌, Bool-cases}
use onair.Prelude.Lists.{Elem, here, there}

abbrev pub StringSet : Type 0
StringSet = List String

-- `set.contains(x)`
abbrev pub contains : StringSet → String → Bool
contains [] x = false
contains (y ∷ ys) x = y == x || contains ys x

-- `set.insert(x)`
unfoldable pub insert : String → StringSet → StringSet
insert x [] = x ∷ []
insert x (y ∷ ys) = elim (compare x y) [
  | Ordering.lt ↦ x ∷ y ∷ ys
  | Ordering.eq ↦ y ∷ ys
  | Ordering.gt ↦ y ∷ insert x ys
]

-- `set.remove(x)`, without the Boolean that it returns
abbrev pub remove : String → StringSet → StringSet
remove x [] = []
remove x (y ∷ ys) = let rest = remove x ys in if y == x then rest else y ∷ rest

-- `set.extend(xs)`
unfoldable pub extend : StringSet → List String → StringSet
extend s [] = s
extend s (x ∷ xs) = extend (insert x s) xs

pub contains-insert :
    (x y : String) (s : StringSet) → contains (insert x s) y ≡ (x == y || contains s y)
unfolding insert
contains-insert x y [] = refl
contains-insert x y (z ∷ zs) = go (compare x z) (path_by_compare x z) (contains-insert x y zs)
  where
    go :
        (o : Ordering)
        → (o ≡ Ordering.eq → x ≡ z)
        → contains (insert x zs) y ≡ (x == y || contains zs y)
        → contains
            (elim o [
              | Ordering.lt ↦ x ∷ z ∷ zs
              | Ordering.eq ↦ z ∷ zs
              | Ordering.gt ↦ z ∷ insert x zs
            ])
            y
          ≡ (x == y || (z == y || contains zs y))
    go Ordering.lt same ih = refl
    go Ordering.eq same ih = ground (arith, same refl)
    go Ordering.gt same ih = ground (arith, ih)

pub contains-remove :
    (x y : String) (s : StringSet)
    → contains (remove x s) y ≡ (if x == y then false else contains s y)
contains-remove x y [] = ground arith
contains-remove x y (z ∷ zs) =
    ground (arith, contains-remove x y zs, eq_iff x y, eq_iff z x, eq_iff z y)

pub contains_iff : (s : StringSet) (x : String) → (contains s x ≡ true) ↔ Elem x s
contains_iff s x = (to s, from s)
  where
    to : (s : StringSet) → contains s x ≡ true → Elem x s
    to [] h = cc h
    to (y ∷ ys) h = elim (Bool-cases (y == x)) [
      | inl e ↦ here (sym ((eq_iff y x).0 e))
      | inr e ↦ there (to ys (rw e at h))
    ]

    from : (s : StringSet) → Elem x s → contains s x ≡ true
    from [] m = elim m [ ]
    from (y ∷ ys) (here e) = ground (arith, eq_iff y x, sym e)
    from (y ∷ ys) (there m) = ground (arith, from ys m)
