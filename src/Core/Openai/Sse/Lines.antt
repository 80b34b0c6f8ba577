-- ===== src/Core/Openai/Sse/Lines.antt =====
-- The loop of the line parser: what it takes from the bytes and what it leaves.
use onair.Prelude.{
  ℕ, zero, suc, ◌≤◌, ◌<◌, ◌≡◌, refl, sym, ap, ◌∙◌, subst, true, false, eqb, Bool-cases, none, some,
  Option-cases, inl, inr, List, [], ◌∷◌, ◌++◌, length, All, map_option, map_option-some, arith,
  Bytes, append_assoc,
}
use onair.Core.Openai.Sse.{newline, take_line, drain_lines}

abbrev pub joined : List Bytes → Bytes
joined [] = []
joined (l ∷ ls) = l ++ joined ls

-- A whole line: its first newline is its last byte.
abbrev pub IsLine : Bytes → Type 0
IsLine l = take_line l ≡ some (l, [])

abbrev pub IsUnfinished : Bytes → Type 0
IsUnfinished bs = take_line bs ≡ none

-- What a line and a rest are to the bytes that they are taken from.
abbrev pub Splits : Bytes → Bytes → Bytes → Type 0
Splits bs l r = (l ++ r ≡ bs) × IsLine l × (length r < length bs)

abbrev SplitsPair : Bytes → Bytes × Bytes → Type 0
SplitsPair bs p = Splits bs p.0 p.1

take_line-here :
    (b : ℕ) (bs : Bytes) → eqb b newline ≡ true → take_line (b ∷ bs) ≡ some (b ∷ [], bs)
unfolding take_line
take_line-here b bs t = rw t refl

take_line-later :
    (b : ℕ) (bs : Bytes)
    → eqb b newline ≡ false
    → take_line (b ∷ bs) ≡ map_option (λ (p : Bytes × Bytes). (b ∷ p.0, p.1)) (take_line bs)
unfolding take_line
take_line-later b bs f = rw f refl

pub take_line-some : (bs l r : Bytes) → take_line bs ≡ some (l, r) → Splits bs l r
unfolding take_line
take_line-some [] l r e = cc e
take_line-some (b ∷ bs) l r e = elim (Bool-cases (eqb b newline)) [
  | inl t ↦
      let taken : some (b ∷ [], bs) ≡ some (l, r) = sym (take_line-here b bs t) ∙ e in
      let same : (b ∷ [], bs) ≡ (l, r) = cc taken in
      subst (SplitsPair (b ∷ bs)) same (refl, take_line-here b [] t, omega arith)
  | inr f ↦
      let (p, q, same) = map_option-some _ (take_line bs) (sym (take_line-later b bs f) ∙ e) in
      let rest = take_line-some bs p.0 p.1 q in
      subst (SplitsPair (b ∷ bs)) same (
        ap (λ xs. b ∷ xs) rest.0,
        take_line-later b p.0 f ∙ ap (map_option _) rest.1,
        omega (arith, rest.2),
      )
]

pub take_line-append :
    (bs ys l r : Bytes) → take_line bs ≡ some (l, r) → take_line (bs ++ ys) ≡ some (l, r ++ ys)
unfolding take_line
take_line-append [] ys l r e = cc e
take_line-append (b ∷ bs) ys l r e = elim (Bool-cases (eqb b newline)) [
  | inl t ↦ ground arith
  | inr f ↦
      let (p, q, same) = map_option-some _ (take_line bs) (sym (take_line-later b bs f) ∙ e) in
      ground (arith, take_line-append bs ys p.0 p.1 q)
]

pub drain-none : (n : ℕ) (bs : Bytes) → IsUnfinished bs → drain_lines n bs ≡ ([], bs)
unfolding drain_lines
drain-none zero bs e = refl
drain-none (suc n) bs e = rw (drain_lines, e) refl

drain-some :
    (n : ℕ) (bs : Bytes) (p : Bytes × Bytes)
    → take_line bs ≡ some p
    → drain_lines (suc n) bs ≡ (p.0 ∷ (drain_lines n p.1).0, (drain_lines n p.1).1)
unfolding drain_lines
drain-some n bs p e = rw (drain_lines, e) refl

take_line-needs : (bs : Bytes) → length bs ≤ 0 → IsUnfinished bs
unfolding take_line
take_line-needs [] h = refl
take_line-needs (b ∷ bs) h = elim (absurd h) [ ]
  where
    absurd : suc (length bs) ≤ 0 → ⊥
    absurd k = omega arith

-- Fuel for every byte is enough.
pub drain-enough :
    (n m : ℕ) (bs : Bytes) → length bs ≤ n → length bs ≤ m → drain_lines n bs ≡ drain_lines m bs
drain-enough zero m bs h k =
    let e = take_line-needs bs h in drain-none 0 bs e ∙ sym (drain-none m bs e)
drain-enough (suc n) zero bs h k =
    let e = take_line-needs bs k in drain-none (suc n) bs e ∙ sym (drain-none 0 bs e)
drain-enough (suc n) (suc m) bs h k = elim (Option-cases (take_line bs)) [
  | inl e ↦ drain-none (suc n) bs e ∙ sym (drain-none (suc m) bs e)
  | inr (p, e) ↦
      let shorter = (take_line-some bs p.0 p.1 e).2 in
      drain-some n bs p e
      ∙ ap (λ (q : List Bytes × Bytes). (p.0 ∷ q.0, q.1))
          (drain-enough n m p.1 (omega (arith, shorter)) (omega (arith, shorter)))
      ∙ sym (drain-some m bs p e)
]

-- The loop ends where no line is left, and has taken whole lines, in order, from the front.
pub drain-ends : (n : ℕ) (bs : Bytes) → length bs ≤ n → IsUnfinished (drain_lines n bs).1
drain-ends zero bs h =
    let none_left = take_line-needs bs h in rw (drain-none 0 bs none_left) none_left
drain-ends (suc n) bs h = elim (Option-cases (take_line bs)) [
  | inl e ↦ rw (drain-none (suc n) bs e) e
  | inr (p, e) ↦
      let shorter = (take_line-some bs p.0 p.1 e).2 in
      rw (drain-some n bs p e) (drain-ends n p.1 (omega (arith, shorter)))
]

pub drain-IsLine : (n : ℕ) (bs : Bytes) → All IsLine (drain_lines n bs).0
unfolding drain_lines
drain-IsLine zero bs = tt
drain-IsLine (suc n) bs = elim (Option-cases (take_line bs)) [
  | inl e ↦ rw (drain-none (suc n) bs e) tt
  | inr (p, e) ↦ rw (drain-some n bs p e) ((take_line-some bs p.0 p.1 e).1, drain-IsLine n p.1)
]

pub drain-joins : (n : ℕ) (bs : Bytes) → joined (drain_lines n bs).0 ++ (drain_lines n bs).1 ≡ bs
unfolding drain_lines
drain-joins zero bs = refl
drain-joins (suc n) bs = elim (Option-cases (take_line bs)) [
  | inl e ↦ rw (drain-none (suc n) bs e) refl
  | inr (p, e) ↦ rw (drain-some n bs p e) (
      append_assoc p.0 _ _
      ∙ ap (λ xs. p.0 ++ xs) (drain-joins n p.1)
      ∙ (take_line-some bs p.0 p.1 e).0)
]

-- The lines of a stream and what is left of it.
abbrev pub lines : Bytes → List Bytes × Bytes
lines bs = drain_lines (length bs) bs

lines-some :
    (bs : Bytes) (p : Bytes × Bytes)
    → take_line bs ≡ some p
    → lines bs ≡ (p.0 ∷ (lines p.1).0, (lines p.1).1)
lines-some bs p e =
    let shorter = (take_line-some bs p.0 p.1 e).2 in
    drain-enough (length bs) (suc (length bs)) bs (omega arith) (omega arith)
    ∙ drain-some (length bs) bs p e
    ∙ ap (λ (q : List Bytes × Bytes). (p.0 ∷ q.0, q.1))
        (drain-enough (length bs) (length p.1) p.1 (omega (arith, shorter)) (omega arith))

lines-append_go :
    (n : ℕ) (bs ys : Bytes)
    → length bs ≤ n
    → let first = lines bs in
      let rest = lines (first.1 ++ ys) in lines (bs ++ ys) ≡ (first.0 ++ rest.0, rest.1)
lines-append_go zero bs ys h = rw (drain-none (length bs) bs (take_line-needs bs h)) refl
lines-append_go (suc n) bs ys h = elim (Option-cases (take_line bs)) [
  | inl e ↦ rw (drain-none (length bs) bs e) refl
  | inr (p, e) ↦
      lines-some (bs ++ ys) (p.0, p.1 ++ ys) (take_line-append bs ys p.0 p.1 e)
      ∙ ap (λ (q : List Bytes × Bytes). (p.0 ∷ q.0, q.1))
          (lines-append_go n p.1 ys (omega (arith, (take_line-some bs p.0 p.1 e).2)))
      ∙ sym (rw (lines-some bs p e) refl)
]

-- The lines of a longer stream are those of the first part and those of what it leaves and the rest.
pub lines-append :
    (bs ys : Bytes)
    → let first = lines bs in
      let rest = lines (first.1 ++ ys) in lines (bs ++ ys) ≡ (first.0 ++ rest.0, rest.1)
lines-append bs ys = lines-append_go (length bs) bs ys (omega arith)
