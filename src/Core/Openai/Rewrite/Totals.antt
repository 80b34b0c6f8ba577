-- ===== src/Core/Openai/Rewrite/Totals.antt =====
-- The totals of the usage objects of a body after the rewriting.
use Prim.Native.Nat.{Ordering}
use Prim.Native.String.{compare}
use text.Mathlib.TextEquality.{path_by_compare}
use text.Mathlib.TextPositions.{compare_refl}
use onair.Prelude.{
  ℕ, ◌≡◌, refl, ◌∙◌, Bool, true, false, String, ◌==◌, eq_iff, if◌then◌else◌, Bool-cases, inl, inr,
  arith, Option, none, some, or_else, suc, zero, List, [], ◌∷◌, ◌+◌, ltb, ◌≢◌, All, All-append, sym,
  ap, ◌++◌, and_then, map_option,
}
use onair.Core.Openai.Json.{
  Value, Items, Entries, null, bool, number, string, array, object, done, item, end, entry, u64,
  as_u64, get_entry, insert_entry,
}
use onair.Core.Openai.Usage.{number_field, checked_add}
use onair.Core.Openai.Rewrite.{
  lacked, missing_total, insert_total, ensure_value, ensure_items, ensure_entries,
  ensure_usage_total_tokens,
}

get-insert :
    (k i : String) (v : Value) (es : Entries)
    → get_entry (insert_entry k v es) i ≡ (if k == i then some v else get_entry es i)
unfolding insert_entry
get-insert k i v end = refl
get-insert k i v (entry j w es) =
    go (compare k j) (path_by_compare k j) (λ e. rw e (compare_refl j)) (get-insert k i v es)
  where
    go :
        (o : Ordering)
        → (o ≡ Ordering.eq → k ≡ j)
        → (k ≡ j → o ≡ Ordering.eq)
        → get_entry (insert_entry k v es) i ≡ (if k == i then some v else get_entry es i)
        → get_entry
            (elim o [
              | Ordering.lt ↦ entry k v (entry j w es)
              | Ordering.eq ↦ entry k v es
              | Ordering.gt ↦ entry j w (insert_entry k v es)
            ])
            i
          ≡ (if k == i then some v else if j == i then some w else get_entry es i)
    go Ordering.lt same back ih = refl
    go Ordering.eq same back ih = ground (arith, same refl)
    go Ordering.gt same back ih = ground (arith, ih, eq_iff k i, eq_iff j i, back)

as_u64-ensure : (u : Bool) (v : Value) → as_u64 (ensure_value u v) ≡ as_u64 v
unfolding ensure_value
as_u64-ensure u null = refl
as_u64-ensure u (bool b) = refl
as_u64-ensure u (number n) = refl
as_u64-ensure u (string s) = refl
as_u64-ensure u (array vs) = refl
as_u64-ensure u (object es) = refl

number_field-ensure :
    (es : Entries) (field : String) → number_field (ensure_entries es) field ≡ number_field es field
unfolding ensure_value number_field
number_field-ensure end field = refl
number_field-ensure (entry k v es) field = elim (Bool-cases (k == field)) [
  | inl t ↦ rw t (as_u64-ensure (k == "usage") v)
  | inr f ↦ rw f (number_field-ensure es field)
]

number_field-insert_total :
    (total : Option ℕ) (es : Entries) (field : String)
    → number_field (insert_total total es) field ≡ (
        if "total_tokens" == field
        then or_else total (number_field es field)
        else number_field es field)
unfolding insert_total number_field
number_field-insert_total none es field = ground arith
number_field-insert_total (some t) es field =
    ground (arith, get-insert "total_tokens" field (number (u64 t)) es)

-- The numbers of a usage object after the rewriting: those of before, and the total that it lacked.
ensured_fields :
    (usage : Entries) (field : String)
    → number_field (insert_total (missing_total usage) (ensure_entries usage)) field ≡ (
        if "total_tokens" == field
        then or_else (missing_total usage) (number_field usage field)
        else number_field usage field)
ensured_fields usage field =
    rw (number_field-insert_total (missing_total usage) (ensure_entries usage) field)
      (rw (number_field-ensure usage field) refl)

-- A place in a value: a key of an object, or an index of an array.
pub data Place : Type 0 where
  key : String → Place
  index : ℕ → Place

abbrev pub nth : Items → ℕ → Option Value
nth done i = none
nth (item v vs) zero = some v
nth (item v vs) (suc i) = nth vs i

abbrev pub step_to : Place → Value → Option Value
step_to (key k) (object es) = get_entry es k
step_to (index i) (array vs) = nth vs i
step_to place v = none

-- The value at a path, if there is one.
abbrev pub value_at : List Place → Value → Option Value
value_at [] v = some v
value_at (place ∷ path) v = and_then (step_to place v) (value_at path)

-- A count of a usage object.
abbrev pub count_at : Entries → String → Option ℕ
count_at es field = and_then (get_entry es field) as_u64

-- The sum of two counts that are there, if a u64 holds it.
abbrev pub sum_of : Option ℕ → Option ℕ → Option ℕ
sum_of (some a) (some b) = if ltb (a + b) 18446744073709551616 then some (a + b) else none
sum_of _ _ = none

-- The total of a usage object: the one it tells, or else the sum of its input and output tokens.
abbrev pub total_of : Entries → Option ℕ
total_of es = or_else (count_at es "total_tokens") (
    sum_of (or_else (count_at es "prompt_tokens") (count_at es "input_tokens"))
      (or_else (count_at es "completion_tokens") (count_at es "output_tokens")))

missing_total-total :
    (es : Entries) → or_else (missing_total es) (count_at es "total_tokens") ≡ total_of es
unfolding missing_total lacked number_field checked_add
missing_total-total es =
    go (count_at es "total_tokens")
      (or_else (count_at es "prompt_tokens") (count_at es "input_tokens"))
      (or_else (count_at es "completion_tokens") (count_at es "output_tokens"))
  where
    go : (t a b : Option ℕ) → or_else (lacked t a b) t ≡ or_else t (sum_of a b)
    go (some t) a b = refl
    go none none b = refl
    go none (some a) none = refl
    go none (some a) (some b) = ground arith

nth-ensure :
    (vs : Items) (i : ℕ) → nth (ensure_items vs) i ≡ map_option (ensure_value false) (nth vs i)
unfolding ensure_value
nth-ensure done i = refl
nth-ensure (item v vs) zero = refl
nth-ensure (item v vs) (suc i) = nth-ensure vs i

get-ensure :
    (es : Entries) (k : String)
    → get_entry (ensure_entries es) k ≡ map_option (ensure_value (k == "usage")) (get_entry es k)
unfolding ensure_value
get-ensure end k = refl
get-ensure (entry j v es) k = elim (Bool-cases (j == k)) [
  | inl t ↦ rw t (ap (λ x. some (ensure_value (x == "usage") v)) ((eq_iff j k).0 t))
  | inr f ↦ rw f (get-ensure es k)
]

get-insert_total :
    (total : Option ℕ) (es : Entries) (k : String)
    → ("total_tokens" == k) ≡ false
    → get_entry (insert_total total es) k ≡ get_entry es k
unfolding insert_total
get-insert_total none es k h = refl
get-insert_total (some t) es k h = get-insert "total_tokens" k (number (u64 t)) es ∙ rw h refl

-- The place holds a usage object, if it holds an object.
is_usage : Place → Bool
is_usage (key k) = k == "usage"
is_usage (index i) = false

on_usage : Bool → List Place → Bool
unfolding is_usage
on_usage u [] = u
on_usage u (place ∷ path) = on_usage (is_usage place) path

not_total : (k : String) → key k ≢ key "total_tokens" → ("total_tokens" == k) ≡ false
not_total k h = elim (Bool-cases ("total_tokens" == k)) [
  | inl t ↦ absurd (h (ap key (sym ((eq_iff "total_tokens" k).0 t))))
  | inr f ↦ f
]

step_to-ensure :
    (place : Place) (u : Bool) (v : Value)
    → place ≢ key "total_tokens"
    → step_to place (ensure_value u v)
      ≡ map_option (ensure_value (is_usage place)) (step_to place v)
unfolding ensure_value is_usage
step_to-ensure (key k) u (object es) h =
    get-insert_total (if u then missing_total es else none) (ensure_entries es) k (not_total k h)
    ∙ get-ensure es k
step_to-ensure (key k) u null h = refl
step_to-ensure (key k) u (bool b) h = refl
step_to-ensure (key k) u (number n) h = refl
step_to-ensure (key k) u (string s) h = refl
step_to-ensure (key k) u (array vs) h = refl
step_to-ensure (index i) u (array vs) h = nth-ensure vs i
step_to-ensure (index i) u null h = refl
step_to-ensure (index i) u (bool b) h = refl
step_to-ensure (index i) u (number n) h = refl
step_to-ensure (index i) u (string s) h = refl
step_to-ensure (index i) u (object es) h = refl

value_at-ensure :
    (path : List Place) (u : Bool) (v : Value)
    → All (λ (place : Place). place ≢ key "total_tokens") path
    → value_at path (ensure_value u v)
      ≡ map_option (ensure_value (on_usage u path)) (value_at path v)
unfolding on_usage
value_at-ensure [] u v h = refl
value_at-ensure (place ∷ path) u v h =
    rw (step_to-ensure place u v h.0)
      (go (step_to place v) (λ w. value_at-ensure path (is_usage place) w h.1))
  where
    go :
        (o : Option Value)
        → ((w : Value)
            → value_at path (ensure_value (is_usage place) w)
              ≡ map_option (ensure_value (on_usage (is_usage place) path)) (value_at path w))
        → and_then (map_option (ensure_value (is_usage place)) o) (value_at path)
          ≡ map_option (ensure_value (on_usage (is_usage place) path)) (and_then o (value_at path))
    go none ih = refl
    go (some w) ih = ih w

on_usage-end : (u : Bool) (path : List Place) → on_usage u (path ++ (key "usage" ∷ [])) ≡ true
unfolding on_usage is_usage
on_usage-end u [] = refl
on_usage-end u (place ∷ path) = on_usage-end (is_usage place) path

usage-clear :
    (path : List Place)
    → All (λ (place : Place). place ≢ key "total_tokens") path
    → All (λ (place : Place). place ≢ key "total_tokens") (path ++ (key "usage" ∷ []))
usage-clear path h = All-append _ path (key "usage" ∷ []) h (λ e. cc e, tt)

-- Every usage object of a body, at any depth that is not below a `total_tokens`, is found at its
-- place after `ensure_usage_total_tokens`. Its total is the one that it told, or else the sum of its
-- input and output tokens if both are there and a u64 holds it; its other counts are as they were.
pub ensure_usage_total_tokens-totals :
    (path : List Place) (value : Value) (usage : Entries)
    → All (λ (place : Place). place ≢ key "total_tokens") path
    → value_at (path ++ (key "usage" ∷ [])) value ≡ some (object usage)
    → (after : Entries) × (value_at (path ++ (key "usage" ∷ [])) (ensure_usage_total_tokens value)
        ≡ some (object after))
      × ((field : String)
          → count_at after field
            ≡ (if "total_tokens" == field then total_of usage else count_at usage field))
unfolding ensure_usage_total_tokens number_field ensure_value
ensure_usage_total_tokens-totals path value usage clear found = (
  insert_total (missing_total usage) (ensure_entries usage),
  value_at-ensure (path ++ (key "usage" ∷ [])) false value (usage-clear path clear)
      ∙ rw found (rw (on_usage-end false path) refl),
  λ field. ensured_fields usage field ∙ elim (Bool-cases ("total_tokens" == field)) [
    | inl t ↦ rw t (rw (sym ((eq_iff "total_tokens" field).0 t)) (missing_total-total usage))
    | inr f ↦ rw f refl
  ],
)
