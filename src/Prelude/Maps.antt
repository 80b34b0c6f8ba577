-- ===== src/Prelude/Maps.antt =====
-- `BTreeMap<String, V>` as an association list in ascending order of the keys.
use Prim.Native.Nat.{Ordering}
use Prim.Native.String.{String, compare}
use mathlib.Core.Path.{◌≡◌, refl}
use mathlib.Core.Option.{Option, none, some}
use mathlib.Core.List.{List, [], ◌∷◌}
use native.Mathlib.Omega.{arith}
use text.Mathlib.Text.{◌==◌}
use text.Mathlib.TextEquality.{eq_iff, path_by_compare}
use text.Mathlib.TextPositions.{compare_refl}
use onair.Prelude.Tests.{if◌then◌else◌, or_else}

abbrev pub StringMap {ℓ} : Type ℓ → Type ℓ
StringMap V = List (String × V)

module _ {ℓ} {V : Type ℓ} where
  -- `map.get(key)`
  abbrev pub get : StringMap V → String → Option V
  get [] k = none
  get ((j, v) ∷ m) k = if j == k then some v else get m k

  put_at : (o : Ordering) → String → V → String → V → StringMap V → StringMap V → StringMap V
  put_at Ordering.lt k v j w m rest = (k, v) ∷ (j, w) ∷ m
  put_at Ordering.eq k v j w m rest = (k, v) ∷ m
  put_at Ordering.gt k v j w m rest = (j, w) ∷ rest

  -- `map.insert(key, value)`
  unfoldable pub put : String → V → StringMap V → StringMap V
  unfolding put_at
  put k v [] = (k, v) ∷ []
  put k v ((j, w) ∷ m) = put_at (compare k j) k v j w m (put k v m)

  get-put_at :
      (o : Ordering) (k i : String) (v : V) (j : String) (w : V) (m rest : StringMap V)
      → (o ≡ Ordering.eq → k ≡ j)
      → (k ≡ j → o ≡ Ordering.eq)
      → get rest i ≡ (if k == i then some v else get m i)
      → get (put_at o k v j w m rest) i
        ≡ (if k == i then some v else if j == i then some w else get m i)
  unfolding put_at
  get-put_at Ordering.lt k i v j w m rest same back ih = refl
  get-put_at Ordering.eq k i v j w m rest same back ih = ground (arith, same refl)
  get-put_at Ordering.gt k i v j w m rest same back ih =
      ground (arith, ih, eq_iff k i, eq_iff j i, back)

  pub get-put :
      (k i : String) (v : V) (m : StringMap V)
      → get (put k v m) i ≡ (if k == i then some v else get m i)
  unfolding put
  get-put k i v [] = refl
  get-put k i v ((j, w) ∷ m) =
      get-put_at (compare k j) k i v j w m (put k v m) (path_by_compare k j)
        (λ e. rw e (compare_refl j)) (get-put k i v m)

  -- Entries of `m` over those of `base`, as a loop of insertions makes it.
  unfoldable pub merge : StringMap V → StringMap V → StringMap V
  merge base [] = base
  merge base ((k, v) ∷ m) = merge (put k v base) m

  -- The keys of a map stand in it once each.
  abbrev pub HasDistinctKeys : StringMap V → Type ℓ
  HasDistinctKeys [] = Unit
  HasDistinctKeys ((k, v) ∷ m) = (get m k ≡ none) × HasDistinctKeys m

  get-merge_none :
      (i : String) (base m : StringMap V) → get m i ≡ none → get (merge base m) i ≡ get base i
  unfolding merge
  get-merge_none i base [] h = refl
  get-merge_none i base ((k, v) ∷ m) h =
      ground (arith, get-merge_none i (put k v base) m, get-put k i v base)

  pub get-merge :
      (i : String) (base m : StringMap V)
      → HasDistinctKeys m
      → get (merge base m) i ≡ or_else (get m i) (get base i)
  unfolding merge
  get-merge i base [] h = refl
  get-merge i base ((k, v) ∷ m) h = ground (
    arith,
    get-merge i (put k v base) m h.1,
    get-put k i v base,
    get-merge_none i (put k v base) m,
    eq_iff k i,
    h.0,
  )
