-- ===== src/Observe/Health/Window.antt =====
-- The window of the recent failures.
use onair.Prelude.{
  ℕ, ◌≤◌, ◌≡◌, refl, inl, inr, List, [], ◌∷◌, ◌++◌, ltb, leb, filter, All, All-append, Bool-cases,
  arith,
}
use onair.Observe.Health.{pop_before}

-- No instant comes before an earlier one.
abbrev pub IsAscending : List ℕ → Type 0
IsAscending [] = Unit
IsAscending (t ∷ ts) = All (λ u. t ≤ u) ts × IsAscending ts

abbrev pub since : ℕ → List ℕ → List ℕ
since cutoff ts = filter (λ t. leb cutoff t) ts

since-All : (cutoff : ℕ) (ts : List ℕ) → All (λ t. cutoff ≤ t) ts → since cutoff ts ≡ ts
since-All cutoff [] h = refl
since-All cutoff (t ∷ ts) h = ground (arith, since-All cutoff ts h.1, h.0)

pub All-map {κ} :
    {A : Type κ} (P Q : A → Type 0) → ((a : A) → P a → Q a) → (xs : List A) → All P xs → All Q xs
All-map P Q f [] h = h
All-map P Q f (x ∷ xs) h = (f x h.0, All-map P Q f xs h.1)

-- What the loop leaves is what the cutoff leaves, in order.
pub pop_before-since :
    (cutoff : ℕ) (ts : List ℕ) → IsAscending ts → pop_before cutoff ts ≡ since cutoff ts
unfolding pop_before
pop_before-since cutoff [] h = refl
pop_before-since cutoff (t ∷ ts) h = elim (Bool-cases (ltb t cutoff)) [
  | inl b ↦ ground (arith, pop_before-since cutoff ts h.1)
  | inr b ↦
      let kept = since-All cutoff ts (All-map _ _ (λ u (le : t ≤ u). ground arith) ts h.0) in
      ground (arith, kept)
]

pub since-append :
    (cutoff : ℕ) (ts us : List ℕ) → since cutoff (ts ++ us) ≡ since cutoff ts ++ since cutoff us
since-append cutoff [] us = refl
since-append cutoff (t ∷ ts) us = ground (arith, since-append cutoff ts us)

-- A later cutoff makes an earlier one superfluous.
pub since-since :
    (early late : ℕ) (ts : List ℕ) → early ≤ late → since late (since early ts) ≡ since late ts
since-since early late [] h = refl
since-since early late (t ∷ ts) h = ground (arith, since-since early late ts h)

pub since-All_kept :
    (P : ℕ → Type 0) (cutoff : ℕ) (ts : List ℕ) → All P ts → All P (since cutoff ts)
since-All_kept P cutoff [] h = h
since-All_kept P cutoff (t ∷ ts) h = elim (Bool-cases (leb cutoff t)) [
  | inl b ↦ rw b (h.0, since-All_kept P cutoff ts h.1)
  | inr b ↦ rw b (since-All_kept P cutoff ts h.1)
]

pub since-IsAscending : (cutoff : ℕ) (ts : List ℕ) → IsAscending ts → IsAscending (since cutoff ts)
since-IsAscending cutoff [] h = h
since-IsAscending cutoff (t ∷ ts) h = elim (Bool-cases (leb cutoff t)) [
  | inl b ↦ rw b (since-All_kept (λ u. t ≤ u) cutoff ts h.0, since-IsAscending cutoff ts h.1)
  | inr b ↦ rw b (since-IsAscending cutoff ts h.1)
]

pub append-IsAscending :
    (ts : List ℕ) (now : ℕ)
    → IsAscending ts
    → All (λ t. t ≤ now) ts
    → IsAscending (ts ++ (now ∷ []))
append-IsAscending [] now h k = (_, _)
append-IsAscending (t ∷ ts) now h k =
    (All-append (λ u. t ≤ u) ts (now ∷ []) h.0 (k.0, _), append-IsAscending ts now h.1 k.1)
