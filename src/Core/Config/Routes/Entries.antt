-- ===== src/Core/Config/Routes/Entries.antt =====
-- The entries `model@backend` of a route, from `parse_route_backend` of config.rs.
use Prim.Native.Char.{Char}
use Prim.Native.String.{[], ◌∷◌}
use text.Mathlib.TextEquality.{Char-path}
use text.Mathlib.TextLemmas.{nil-append, cons-append}
use onair.Prelude.{
  String, code, ◌≡◌, refl, sym, ap, ◌∙◌, false, Bool-cases, Option, none, some, eqb, eqb_iff,
  is_empty, contains_char, rsplit_once, rsplit_once-join, ◌+ˢ◌, inl, inr, if◌then◌else◌,
}
use onair.Core.Config.Result.{ok, Ensures, Ensures-ok, Ensures-then, ◌>>=◌, fail_if}
use onair.Core.Config.Routes.{parse_route_backend, check_entry}

-- An entry made of a model and a backend id, neither of them empty, the id without '@', gives them
-- back; the model may hold '@'.
pub parse_route_backend-join :
    (model backend_id : String)
    → is_empty model ≡ false
    → is_empty backend_id ≡ false
    → contains_char b'@' backend_id ≡ false
    → parse_route_backend (model +ˢ ("@" +ˢ backend_id)) ≡ ok (some model, backend_id)
unfolding parse_route_backend ◌>>=◌ fail_if
parse_route_backend-join model backend_id hm hb h =
    rw (cons-append, nil-append, rsplit_once-join "@" model backend_id h, hb, hm)

-- What the answer of a search for the last '@' says of the text.
abbrev Splits : String → Option (String × String) → Type 0
Splits s none = contains_char b'@' s ≡ false
Splits s (some (a, b)) = (s ≡ a +ˢ ("@" +ˢ b)) × (contains_char b'@' b ≡ false)

here_or_nowhere :
    (c : Char) (s : String)
    → contains_char b'@' s ≡ false
    → Splits (c ∷ s) (if eqb (code c) b'@' then some ([], s) else none)
here_or_nowhere c s h = elim (Bool-cases (eqb (code c) b'@')) [
  | inl e ↦
      let same : c ≡ "@" = Char-path c "@" ((eqb_iff (code c) b'@').0 e) in
      rw e (rw (nil-append, cons-append, nil-append, same) (refl, h))
  | inr e ↦ rw (e, e) h
]

Splits-cons :
    (c : Char) (s : String) (o : Option (String × String))
    → Splits s o
    → Splits (c ∷ s) (elim o [
      | some p ↦ some (c ∷ p.0, p.1)
      | none ↦ if eqb (code c) b'@' then some ([], s) else none
    ])
Splits-cons c s (some (a, b)) h = (ap (λ t. c ∷ t) h.0 ∙ sym (cons-append c a _), h.1)
Splits-cons c s none h = here_or_nowhere c s h

rsplit_once-Splits : (s : String) → Splits s (rsplit_once b'@' s)
rsplit_once-Splits [] = refl
rsplit_once-Splits (c ∷ s) = Splits-cons c s (rsplit_once b'@' s) (rsplit_once-Splits s)

-- What an accepted entry means: the text is the model, '@' and the backend id, or the id alone.
abbrev pub Means : String → Option String × String → Type 0
Means entry (some model, backend_id) =
    (entry ≡ model +ˢ ("@" +ˢ backend_id))
    × (is_empty model ≡ false)
    × (is_empty backend_id ≡ false)
    × (contains_char b'@' backend_id ≡ false)
Means entry (none, backend_id) = (entry ≡ backend_id) × (contains_char b'@' backend_id ≡ false)

check_entry-Means :
    (entry : String) (o : Option (String × String))
    → Splits entry o
    → Ensures (Means entry) (check_entry entry o)
unfolding check_entry
check_entry-Means entry none h = Ensures-ok (refl, h)
check_entry-Means entry (some (model, backend_id)) h =
    Ensures-then _ _ _
      λ has_id. Ensures-then _ _ _ λ has_model. Ensures-ok (h.0, has_model, has_id, h.1)

-- Every accepted entry is read as what it says: a model, '@' and a backend id, both not empty, or
-- a backend id alone; and the id holds no '@'.
pub parse_route_backend-Means :
    (entry : String) (r : Option String × String) → parse_route_backend entry ≡ ok r → Means entry r
unfolding parse_route_backend
parse_route_backend-Means entry =
    (check_entry-Means entry (rsplit_once b'@' entry) (rsplit_once-Splits entry)).at
