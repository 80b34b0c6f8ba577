-- ===== src/Proxy/Routing/Select/Collect.antt =====
-- The loops over bindings and over backends: what they push, and when their flag is set.
use onair.Prelude.{
  ◌≡◌, refl, sym, ◌∙◌, ap, ◌↔◌, ◌⊎◌, inl, inr, Bool, false, ◌||◌, List, [], ◌∷◌, Option, none, some,
  Elem, here, there, any, arith,
}
use onair.Proxy.Routing.Select.{collect, push_some}

module _ {B : Type 0} where
  Elem-push_some :
      (o : Option B) (bs : List B) {b : B} → Elem b (push_some o bs) ↔ ((o ≡ some b) ⊎ Elem b bs)
  unfolding push_some
  Elem-push_some none bs = (inr, λ s. elim s [ inl e ↦ cc e | inr m ↦ m ])
  Elem-push_some (some c) bs {b} = (to, from)
    where
      to : Elem b (c ∷ bs) → (some c ≡ some b) ⊎ Elem b bs
      to (here e) = inl (ap some (sym e))
      to (there m) = inr m

      from : (some c ≡ some b) ⊎ Elem b bs → Elem b (c ∷ bs)
      from (inl e) = here (cc e)
      from (inr m) = there m

module _ {A B : Type 0} where
  -- A round's result does not depend on the flag, and the flag only ever gets set.
  pub record IsRound (step : A → Bool → Option B × Bool) : Type 0 where
    pub result : (a : A) (flag : Bool) → (step a flag).0 ≡ (step a false).0
    pub flags : (a : A) (flag : Bool) → (step a flag).1 ≡ flag || (step a false).1

  pub Elem-collect :
      (step : A → Bool → Option B × Bool) (round : IsRound step) (xs : List A) (flag : Bool) {b : B}
      → Elem b (collect step xs flag).0 ↔ ((a : A) × Elem a xs × ((step a false).0 ≡ some b))
  unfolding collect
  Elem-collect step round [] flag = (λ m. elim m [ ], λ (a, m, e). elim m [ ])
  Elem-collect step round (x ∷ xs) flag {b} =
      let pushed = Elem-push_some (step x flag).0 (collect step xs (step x flag).1).0 in
      let later = Elem-collect step round xs (step x flag).1 in
      (
        λ m. elim (pushed.0 m) [
          | inl e ↦ (x, here refl, sym (round.result x flag) ∙ e)
          | inr n ↦ let (a, k, e) = later.0 n in (a, there k, e)
        ],
        λ (a, m, e). pushed.1 (go a m e (later.1)),
      )
    where
      go :
          (a : A)
          → Elem a (x ∷ xs)
          → (step a false).0 ≡ some b
          → ((a : A) × Elem a xs × ((step a false).0 ≡ some b)
              → Elem b (collect step xs (step x flag).1).0)
          → ((step x flag).0 ≡ some b) ⊎ Elem b (collect step xs (step x flag).1).0
      go a (here same) e later = inl (round.result x flag ∙ rw (sym same) e)
      go a (there m) e later = inr (later (a, m, e))

  pub collect-flag :
      (step : A → Bool → Option B × Bool) (round : IsRound step) (xs : List A) (flag : Bool)
      → (collect step xs flag).1 ≡ flag || any (λ a. (step a false).1) xs
  unfolding collect
  collect-flag step round [] flag = ground arith
  collect-flag step round (x ∷ xs) flag =
      ground (arith, collect-flag step round xs (step x flag).1, round.flags x flag)
