-- ===== src/Proxy/Routing/Strategy/Rotation.antt =====
-- What a rotation keeps, and that every strategy rotates to a place inside the list.
use native.Mathlib.Nat.{mod-lt}
use onair.Prelude.{
  ℕ, ◌+◌, ◌<◌, ◌≡◌, sym, subst, ◌↔◌, inl, inr, String, List, [], ◌∷◌, length, take, drop, leb, eqb,
  unwrap_or, get, Elem, Elem-append, Elem-append_left, Elem-append_right, take-append-drop,
  length-append, length-take_add_drop, Bool-cases, arith,
}
use onair.Proxy.Routing.Strategy.{
  rotate_left, RoundRobinCounters, next_index, sticky_index, hash_key, weighted_index,
  weighted_rotation, sum,
}

module _ {ℓ} {A : Type ℓ} where
  pub length-rotate_left : (i : ℕ) (xs : List A) → length (rotate_left i xs) ≡ length xs
  length-rotate_left i xs =
      omega (arith, length-append (drop i xs) (take i xs), length-take_add_drop i xs)

  pub Elem-rotate_left : (i : ℕ) (xs : List A) {x : A} → Elem x (rotate_left i xs) ↔ Elem x xs
  Elem-rotate_left i xs {x} = (
    λ m.
        subst (λ l. Elem x l) (take-append-drop i xs)
          (elim (Elem-append (drop i xs) (take i xs) m) [
            | inl l ↦ Elem-append_right (take i xs) (drop i xs) l
            | inr r ↦ Elem-append_left (take i xs) (drop i xs) r
          ]),
    λ m.
        elim (Elem-append (take i xs) (drop i xs)
          (subst (λ l. Elem x l) (sym (take-append-drop i xs)) m)) [
            | inl l ↦ Elem-append_right (drop i xs) (take i xs) l
            | inr r ↦ Elem-append_left (drop i xs) (take i xs) r
          ],
  )

pub sticky_index-below : (key : String) (count : ℕ) → 0 < count → sticky_index key count < count
unfolding sticky_index
sticky_index-below key count positive = elim (Bool-cases (leb count 1)) [
  | inl t ↦ rw t positive
  | inr f ↦ rw f (mod-lt (hash_key key) positive)
]

pub next_index-below :
    (counters : RoundRobinCounters) (key : String) (count : ℕ)
    → 0 < count
    → (next_index counters key count).0 < count
unfolding next_index
next_index-below counters key count positive = elim (Bool-cases (eqb count 0)) [
  | inl t ↦ rw t positive
  | inr f ↦ rw f (mod-lt (unwrap_or (get counters key) 0) positive)
]

weighted_index-below :
    (pick base : ℕ) (weights : List ℕ)
    → 0 < length weights
    → unwrap_or (weighted_index pick base weights) 0 < length weights
unfolding weighted_index
weighted_index-below pick base [] positive = positive
weighted_index-below pick base (w ∷ []) positive = ground arith
weighted_index-below pick base (w ∷ u ∷ ws) positive =
    ground (arith, weighted_index-below pick (base + w) (u ∷ ws) (omega arith))

pub weighted_rotation-below :
    (draw : ℕ → ℕ) (weights : List ℕ)
    → 0 < length weights
    → weighted_rotation draw weights < length weights
unfolding weighted_rotation
weighted_rotation-below draw weights positive =
    ground (arith, weighted_index-below (draw (sum weights)) 0 weights positive)
