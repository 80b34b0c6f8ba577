-- ===== src/Core/Openai/Rewrite/Models.antt =====
-- The names of models after the rewriting of a body.
use onair.Prelude.{◌≡◌, ◌≢◌, refl, false, String, eq_iff, Bool-cases, inl, inr, arith}
use onair.Core.Openai.Json.{
  Value, Items, Entries, null, bool, number, string, array, object, done, item, end, entry,
}
use onair.Core.Openai.Rewrite.{names_model, rewrite_response_models, rewrite_items, rewrite_entries}

-- No entry under "model", at any depth, is the text of that model.
abbrev mutual
  pub HidesModel : String → Value → Type 0
  HidesModel model (object es) = EntriesHide model es
  HidesModel model (array vs) = ItemsHide model vs
  HidesModel model _ = Unit

  pub ItemsHide : String → Items → Type 0
  ItemsHide model done = Unit
  ItemsHide model (item v vs) = HidesModel model v × ItemsHide model vs

  pub EntriesHide : String → Entries → Type 0
  EntriesHide model end = Unit
  EntriesHide model (entry k v es) =
      (names_model k v model ≡ false) × HidesModel model v × EntriesHide model es

model_text : (k s model : String) → model ≢ s → names_model k (string s) model ≡ false
unfolding names_model
model_text k s model h = ground (arith, eq_iff s model)

rewritten-hides :
    (backend_model public_model k : String) (v : Value)
    → names_model k v backend_model ≡ false
    → names_model k (rewrite_response_models v backend_model public_model) backend_model ≡ false
unfolding names_model rewrite_response_models
rewritten-hides backend_model public_model k null h = h
rewritten-hides backend_model public_model k (bool b) h = h
rewritten-hides backend_model public_model k (number n) h = h
rewritten-hides backend_model public_model k (string s) h = h
rewritten-hides backend_model public_model k (array vs) h = refl
rewritten-hides backend_model public_model k (object es) h = refl

module _ (backend_model public_model : String) (other : backend_model ≢ public_model) where
  mutual
    unfolding rewrite_response_models

    hides :
        (v : Value)
        → HidesModel backend_model (rewrite_response_models v backend_model public_model)
    hides null = tt
    hides (bool b) = tt
    hides (number n) = tt
    hides (string s) = tt
    hides (array vs) = items_hide vs
    hides (object es) = entries_hide es

    items_hide :
        (vs : Items) → ItemsHide backend_model (rewrite_items vs backend_model public_model)
    items_hide done = tt
    items_hide (item v vs) = (hides v, items_hide vs)

    entries_hide :
        (es : Entries) → EntriesHide backend_model (rewrite_entries es backend_model public_model)
    entries_hide end = tt
    entries_hide (entry k v es) = elim (Bool-cases (names_model k v backend_model)) [
      | inl t ↦ rw t (model_text k public_model backend_model other, tt, entries_hide es)
      | inr f ↦ rw f (rewritten-hides backend_model public_model k v f, hides v, entries_hide es)
    ]

-- The client sees the name of no backend model: after the rewriting no entry under "model", at any
-- depth, has it, provided that the two names differ.
pub rewrite_response_models-HidesModel :
    (backend_model public_model : String) (value : Value)
    → backend_model ≢ public_model
    → HidesModel backend_model (rewrite_response_models value backend_model public_model)
rewrite_response_models-HidesModel backend_model public_model value other =
    hides backend_model public_model other value
