-- ===== src/Observe/Inspector/Store/Retention.antt =====
-- What the inspector's store retains.
use onair.Prelude.{
  suc, ◌≡◌, refl, sym, ap, ◌∙◌, inl, inr, String, Bool, true, false, ◌||◌, List, [], ◌∷◌, ◌++◌,
  none, some, ◌==◌, eq_iff, length, any, Bool-cases, arith, if◌then◌else◌,
}
use onair.Observe.Inspector.Records.{InspectorRequestRecord, id_of}
use onair.Observe.Inspector.Store.{has_id, replace, find_last}

abbrev pub holds : String → List InspectorRequestRecord → Bool
holds id rs = any (has_id id) rs

-- No two records share their id.
unfoldable pub HasDistinctIds : List InspectorRequestRecord → Type 0
HasDistinctIds [] = Unit
HasDistinctIds (r ∷ rs) = (holds (id_of r) rs ≡ false) × HasDistinctIds rs

pub replace-none :
    (rs : List InspectorRequestRecord) (r : InspectorRequestRecord)
    → holds (id_of r) rs ≡ false
    → replace rs r ≡ none
unfolding replace
replace-none [] r h = refl
replace-none (slot ∷ later) r h = ground (arith, replace-none later r)

-- What a replacement keeps: the length, the ids, and every other record.
pub record IsReplaced (rs : List InspectorRequestRecord) (r : InspectorRequestRecord)
    (rs' : List InspectorRequestRecord) : Type 0 where
  pub same_length : length rs' ≡ length rs
  pub same_ids : (j : String) → holds j rs' ≡ holds j rs
  pub found :
      (j : String)
      → find_last (has_id j) rs' ≡ (if id_of r == j then some r else find_last (has_id j) rs)
  pub distinct : HasDistinctIds rs'

pub find_last-none :
    (test : InspectorRequestRecord → Bool) (rs : List InspectorRequestRecord)
    → any test rs ≡ false
    → find_last test rs ≡ none
unfolding find_last
find_last-none test [] h = refl
find_last-none test (r ∷ rs) h = ground (arith, find_last-none test rs)

pub find_last-append :
    (test : InspectorRequestRecord → Bool) (rs : List InspectorRequestRecord)
    (r : InspectorRequestRecord)
    → find_last test (rs ++ (r ∷ [])) ≡ (if test r then some r else find_last test rs)
unfolding find_last
find_last-append test [] r = refl
find_last-append test (x ∷ rs) r = ground (arith, find_last-append test rs r)

pub holds-append :
    (j : String) (rs : List InspectorRequestRecord) (r : InspectorRequestRecord)
    → holds j (rs ++ (r ∷ [])) ≡ holds j rs || has_id j r
holds-append j [] r = ground arith
holds-append j (x ∷ rs) r = ground (arith, holds-append j rs r)

pub append-HasDistinctIds :
    (rs : List InspectorRequestRecord) (r : InspectorRequestRecord)
    → HasDistinctIds rs
    → holds (id_of r) rs ≡ false
    → HasDistinctIds (rs ++ (r ∷ []))
unfolding HasDistinctIds
append-HasDistinctIds [] r d h = (refl, _)
append-HasDistinctIds (x ∷ rs) r d h = (
  ground (
    arith,
    holds-append (id_of x) rs r,
    d.0,
    eq_iff (id_of x) (id_of r),
    eq_iff (id_of r) (id_of x),
  ),
  append-HasDistinctIds rs r d.1 (ground arith),
)

IsReplaced-here :
    (slot r : InspectorRequestRecord) (later : List InspectorRequestRecord)
    → HasDistinctIds (slot ∷ later)
    → id_of slot ≡ id_of r
    → IsReplaced (slot ∷ later) r (r ∷ later)
unfolding find_last HasDistinctIds
IsReplaced-here slot r later d same = record {
  same_length = refl;
  same_ids = λ j. rw same refl;
  found = λ j. here_found j;
  distinct = (rw (sym same) d.0, d.1);
}
  where
    here_found :
        (j : String)
        → find_last (has_id j) (r ∷ later)
          ≡ (if id_of r == j then some r else find_last (has_id j) (slot ∷ later))
    here_found j = ground (arith, find_last-none (has_id j) later, d.0, same, eq_iff (id_of r) j)

IsReplaced-there :
    (slot r : InspectorRequestRecord) (later rs' : List InspectorRequestRecord)
    → HasDistinctIds (slot ∷ later)
    → has_id (id_of r) slot ≡ false
    → IsReplaced later r rs'
    → IsReplaced (slot ∷ later) r (slot ∷ rs')
unfolding find_last HasDistinctIds
IsReplaced-there slot r later rs' d other in_later = record {
  same_length = ap suc in_later.same_length;
  same_ids = λ j. ap (λ b. has_id j slot || b) (in_later.same_ids j);
  found = λ j. ground (arith, in_later.found j, other, eq_iff (id_of r) j, eq_iff (id_of slot) j);
  distinct = (in_later.same_ids (id_of slot) ∙ d.0, in_later.distinct);
}

pub replace-IsReplaced :
    (rs : List InspectorRequestRecord) (r : InspectorRequestRecord)
    → HasDistinctIds rs
    → holds (id_of r) rs ≡ true
    → (rs' : List InspectorRequestRecord) × (replace rs r ≡ some rs') × IsReplaced rs r rs'
unfolding replace HasDistinctIds
replace-IsReplaced [] r d h = cc h
replace-IsReplaced (slot ∷ later) r d h = elim (Bool-cases (has_id (id_of r) slot)) [
  | inl t ↦
      (r ∷ later, rw t refl, IsReplaced-here slot r later d ((eq_iff (id_of slot) (id_of r)).0 t))
  | inr f ↦
      let (rs', e, replaced) = replace-IsReplaced later r d.1 (rw f at h) in
      (slot ∷ rs', rw f (rw e refl), IsReplaced-there slot r later rs' d f replaced)
]
