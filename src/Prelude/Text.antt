-- ===== src/Prelude/Text.antt =====
-- The operations of Rust's `str` that the program uses, on texts as sequences of characters.
use Prim.Native.Nat.{ℕ}
use Prim.Native.Char.{Char, code}
use Prim.Native.String
use Prim.Native.String.{String, [], ◌∷◌}
use mathlib.Core.Path.{◌≡◌, refl}
use mathlib.Core.Bool.{Bool, true, false, ◌&&◌, ◌||◌}
use mathlib.Core.Option.{Option, none, some}
use mathlib.Core.List.{List, [], ◌∷◌}
use native.Mathlib.Omega.{arith}
use text.Mathlib.TextLemmas.{nil-append, cons-append}
use onair.Prelude.Tests.{leb, eqb, if◌then◌else◌, map_option}

-- `s + t`
infixl 65 ◌+ˢ◌
abbrev pub ◌+ˢ◌ : String → String → String
s +ˢ t = String.◌++◌ s t

-- `str::is_empty`
abbrev pub is_empty : String → Bool
is_empty [] = true
is_empty (c ∷ s) = false

-- `trim_start_matches(c)` and `trim_end_matches(c)`, for the character of a code point
abbrev pub trim_start_matches : ℕ → String → String
trim_start_matches k [] = []
trim_start_matches k (c ∷ s) = if eqb (code c) k then trim_start_matches k s else c ∷ s

abbrev pub trim_end_matches : ℕ → String → String
trim_end_matches k [] = []
trim_end_matches k (c ∷ s) =
    let rest = trim_end_matches k s in if is_empty rest && eqb (code c) k then [] else c ∷ rest

-- `char::is_whitespace`: the code points with the Unicode property White_Space
pub is_whitespace : ℕ → Bool
is_whitespace k =
    (leb 0x9 k && leb k 0xd)
    || eqb k 0x20
    || eqb k 0x85
    || eqb k 0xa0
    || eqb k 0x1680
    || (leb 0x2000 k && leb k 0x200a)
    || eqb k 0x2028
    || eqb k 0x2029
    || eqb k 0x202f
    || eqb k 0x205f
    || eqb k 0x3000

pub trim_start : String → String
trim_start [] = []
trim_start (c ∷ s) = if is_whitespace (code c) then trim_start s else c ∷ s

pub trim_end : String → String
trim_end [] = []
trim_end (c ∷ s) =
    let rest = trim_end s in if is_empty rest && is_whitespace (code c) then [] else c ∷ rest

-- `str::trim`
unfoldable pub trim : String → String
unfolding trim_start trim_end is_whitespace
trim s = trim_end (trim_start s)

-- `strip_prefix`
abbrev pub strip_prefix : String → String → Option String
strip_prefix [] s = some s
strip_prefix (a ∷ p) [] = none
strip_prefix (a ∷ p) (b ∷ s) = if eqb (code a) (code b) then strip_prefix p s else none

-- `s.contains(c)` for a character
abbrev pub contains_char : ℕ → String → Bool
contains_char k [] = false
contains_char k (c ∷ s) = eqb (code c) k || contains_char k s

-- `s.split_once(c)`: the text before the first such character, and the text behind it
abbrev pub split_once : ℕ → String → Option (String × String)
split_once k [] = none
split_once k (c ∷ s) =
    let rest = map_option (λ (p : String × String). (c ∷ p.0, p.1)) (split_once k s) in
    if eqb (code c) k then some ([], s) else rest

-- `s.rfind(c)` with the two slices around the place found
abbrev pub rsplit_once : ℕ → String → Option (String × String)
rsplit_once k [] = none
rsplit_once k (c ∷ s) = elim (rsplit_once k s) [
  | some p ↦ some (c ∷ p.0, p.1)
  | none ↦ if eqb (code c) k then some ([], s) else none
]

-- `s.split(c)`: always at least one part
abbrev pub cons_first : Char → List String → List String
cons_first c [] = (c ∷ []) ∷ []
cons_first c (p ∷ ps) = (c ∷ p) ∷ ps

abbrev pub split : ℕ → String → List String
split k [] = [] ∷ []
split k (c ∷ s) = let rest = split k s in if eqb (code c) k then [] ∷ rest else cons_first c rest

rsplit_once-none : (k : ℕ) (s : String) → contains_char k s ≡ false → rsplit_once k s ≡ none
rsplit_once-none k [] h = refl
rsplit_once-none k (c ∷ s) h = ground (arith, rsplit_once-none k s)

-- Splitting at the last separator undoes joining, if the second part holds no separator.
pub rsplit_once-join :
    (c : Char) (s t : String)
    → contains_char (code c) t ≡ false
    → rsplit_once (code c) (s +ˢ (c ∷ t)) ≡ some (s, t)
rsplit_once-join c [] t h = rw nil-append (ground (arith, rsplit_once-none (code c) t h))
rsplit_once-join c (d ∷ s) t h = rw cons-append (ground (arith, rsplit_once-join c s t h))
