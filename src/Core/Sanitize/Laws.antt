-- ===== src/Core/Sanitize/Laws.antt =====
-- What a sanitised text is made of.
use Prim.Native.String.{[], ◌∷◌, count}
use Prim.Native.String.count
use onair.Prelude.{
  ℕ, zero, suc, Char, ◌≤◌, ◌≡◌, refl, subst, String, true, some, is_empty, false, Bool-cases, inl,
  inr, arith, if_cases,
}
use onair.Core.Sanitize.{is_kept, projected, take_chars, non_empty_text, sanitize_for_storage}

-- Every character is a letter, a digit, '-', '_' or '.'.
unfoldable pub IsSafe : String → Type 0
IsSafe [] = Unit
IsSafe (c ∷ s) = (is_kept c ≡ true) × IsSafe s

projected-IsSafe : (s : String) → IsSafe (projected s)
unfolding projected IsSafe
projected-IsSafe [] = _
projected-IsSafe (c ∷ s) = elim (Bool-cases (is_kept c)) [
  | inl t ↦ rw t (t, projected-IsSafe s)
  | inr f ↦ rw f (
      if_cases IsSafe _ {x = "_" ∷ projected s} (λ _. (refl, projected-IsSafe s))
        (λ _. projected-IsSafe s))
]

take_chars-IsSafe : (n : ℕ) (s : String) → IsSafe s → IsSafe (take_chars n s)
unfolding take_chars IsSafe
take_chars-IsSafe zero s h = _
take_chars-IsSafe (suc n) [] h = _
take_chars-IsSafe (suc n) (c ∷ s) h = (h.0, take_chars-IsSafe n s h.1)

count-take_chars : (n : ℕ) (s : String) → count (take_chars n s) ≤ n
unfolding take_chars
count-take_chars zero s = omega (arith, count.nil)
count-take_chars (suc n) [] = omega (arith, count.nil)
count-take_chars (suc n) (c ∷ s) =
    omega (arith, count-take_chars n s, count.cons c (take_chars n s))

projected_safe : (s : String) → IsSafe s → projected s ≡ s
unfolding projected IsSafe
projected_safe [] h = refl
projected_safe (c ∷ s) h = rw (h.0, projected_safe s h.1)

take_chars_all : (n : ℕ) (s : String) → count s ≤ n → take_chars n s ≡ s
unfolding take_chars
take_chars_all zero [] h = refl
take_chars_all zero (c ∷ s) h = absurd (omega (arith, count.cons c s))
take_chars_all (suc n) [] h = refl
take_chars_all (suc n) (c ∷ s) h = rw (take_chars_all n s (omega (arith, count.cons c s)))

-- A text that comes out of the sanitiser is not empty, has at most the characters allowed, each a
-- letter, a digit, '-', '_' or '.', and comes out of the sanitiser as it is.
pub sanitize_for_storage-IsSafe :
    (value : String) (max_chars : ℕ) (s : String)
    → sanitize_for_storage value max_chars ≡ some s
    → (is_empty s ≡ false)
      × (count s ≤ max_chars)
      × IsSafe s
      × (sanitize_for_storage s max_chars ≡ some s)
unfolding sanitize_for_storage non_empty_text
sanitize_for_storage-IsSafe value max_chars s h =
    go (take_chars max_chars (projected value)) h (count-take_chars max_chars (projected value))
      (take_chars-IsSafe max_chars (projected value) (projected-IsSafe value))
  where
    again :
        (c : Char) (t : String)
        → count (c ∷ t) ≤ max_chars
        → IsSafe (c ∷ t)
        → non_empty_text (take_chars max_chars (projected (c ∷ t))) ≡ some (c ∷ t)
    again c t short safe =
        rw (projected_safe (c ∷ t) safe) (rw (take_chars_all max_chars (c ∷ t) short) refl)

    go :
        (t : String)
        → non_empty_text t ≡ some s
        → count t ≤ max_chars
        → IsSafe t
        → (is_empty s ≡ false)
          × (count s ≤ max_chars)
          × IsSafe s
          × (non_empty_text (take_chars max_chars (projected s)) ≡ some s)
    go [] e short safe = cc e
    go (c ∷ t) e short safe =
        let same : c ∷ t ≡ s = cc e in
        subst
          (λ u.
            (is_empty u ≡ false)
            × (count u ≤ max_chars)
            × IsSafe u
            × (non_empty_text (take_chars max_chars (projected u)) ≡ some u))
          same (refl, short, safe, again c t short safe)
