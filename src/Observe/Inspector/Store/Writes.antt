-- ===== src/Observe/Inspector/Store/Writes.antt =====
-- The three operations that write to the inspector's store.
use onair.Prelude.{
  ℕ, ◌-◌, ◌≤◌, max, ◌≡◌, refl, inl, inr, String, Bool, true, false, not, ◌&&◌, List, [], ◌∷◌, none,
  some, ◌==◌, eq_iff, leb, length, length-append, Bool-cases, arith, if◌then◌else◌,
}
use onair.Observe.Inspector.Records.{InspectorRequestRecord, id_of}
use onair.Observe.Inspector.Store.{
  InspectorStore, clamp_retention, has_id, pop_front, push_evicting, upsert_with_fifo_eviction,
  record_request, upsert, upsert_final, find_last, get_record, retained_len,
}
use onair.Observe.Inspector.Store.Retention.{
  holds, HasDistinctIds, replace-none, replace-IsReplaced, find_last-none, find_last-append,
  append-HasDistinctIds,
}

abbrev pub is_front : String → List InspectorRequestRecord → Bool
is_front j [] = false
is_front j (r ∷ rs) = has_id j r

-- The record `j` makes room: the new one is not in the store, the store is full, `j` is oldest.
abbrev pub is_evicted : List InspectorRequestRecord → InspectorRequestRecord → ℕ → String → Bool
is_evicted rs r n j = not (holds (id_of r) rs) && (leb n (length rs) && is_front j rs)

-- What writing a record does to a list of records.
pub record IsUpserted (rs : List InspectorRequestRecord) (r : InspectorRequestRecord) (n : ℕ)
    (rs' : List InspectorRequestRecord) : Type 0 where
  pub bounded : length rs' ≤ max (length rs) n
  pub distinct : HasDistinctIds rs'
  pub found :
      (j : String)
      → find_last (has_id j) rs' ≡ (
          if id_of r == j
          then some r
          else if is_evicted rs r n j
          then none
          else find_last (has_id j) rs)

pop_front-distinct :
    (rs : List InspectorRequestRecord) → HasDistinctIds rs → HasDistinctIds (pop_front rs)
unfolding HasDistinctIds
pop_front-distinct [] d = d
pop_front-distinct (r ∷ rs) d = d.1

pop_front-holds :
    (j : String) (rs : List InspectorRequestRecord)
    → holds j rs ≡ false
    → holds j (pop_front rs) ≡ false
pop_front-holds j [] h = h
pop_front-holds j (r ∷ rs) h = ground arith

pop_front-found :
    (j : String) (rs : List InspectorRequestRecord)
    → HasDistinctIds rs
    → find_last (has_id j) (pop_front rs)
      ≡ (if is_front j rs then none else find_last (has_id j) rs)
unfolding find_last HasDistinctIds
pop_front-found j [] d = refl
pop_front-found j (r ∷ rs) d = ground (arith, find_last-none (has_id j) rs, d.0, eq_iff (id_of r) j)

length-pop_front : (rs : List InspectorRequestRecord) → length (pop_front rs) ≡ length rs - 1
length-pop_front [] = omega arith
length-pop_front (r ∷ rs) = omega arith

pushed-IsUpserted :
    (rs : List InspectorRequestRecord) (r : InspectorRequestRecord) (n : ℕ)
    → 1 ≤ n
    → HasDistinctIds rs
    → holds (id_of r) rs ≡ false
    → IsUpserted rs r n (push_evicting rs r n)
pushed-IsUpserted rs r n room d fresh = elim (Bool-cases (leb n (length rs))) [
  | inl t ↦ rw t record {
    bounded = ground (arith, length-append (pop_front rs) (r ∷ []), length-pop_front rs);
    distinct =
        append-HasDistinctIds (pop_front rs) r (pop_front-distinct rs d)
          (pop_front-holds (id_of r) rs fresh);
    found =
        λ j. ground (arith, find_last-append (has_id j) (pop_front rs) r, pop_front-found j rs d);
  }
  | inr f ↦ rw f record {
    bounded = ground (arith, length-append rs (r ∷ []));
    distinct = append-HasDistinctIds rs r d fresh;
    found = λ j. ground (arith, find_last-append (has_id j) rs r);
  }
]

pub upsert_with_fifo_eviction-IsUpserted :
    (rs : List InspectorRequestRecord) (r : InspectorRequestRecord) (n : ℕ)
    → 1 ≤ n
    → HasDistinctIds rs
    → IsUpserted rs r n (upsert_with_fifo_eviction rs r n)
unfolding upsert_with_fifo_eviction
upsert_with_fifo_eviction-IsUpserted rs r n room d = elim (Bool-cases (holds (id_of r) rs)) [
  | inl t ↦
      let (rs', e, replaced) = replace-IsReplaced rs r d t in
      rw e record {
        bounded = ground (arith, replaced.same_length);
        distinct = replaced.distinct;
        found = λ j. ground (arith, replaced.found j);
      }
  | inr f ↦ rw (replace-none rs r f) (pushed-IsUpserted rs r n room d f)
]

-- The operations, to state what they share.
pub data Write : Type 0 where
  by_record by_upsert by_upsert_final : Write

unfoldable pub write : Write → InspectorStore → Bool → ℕ → InspectorRequestRecord → InspectorStore
write by_record = record_request
write by_upsert = upsert
write by_upsert_final = upsert_final

write-records :
    (w : Write) (store : InspectorStore) (retention : ℕ) (r : InspectorRequestRecord)
    → (write w store true retention r).records
      ≡ upsert_with_fifo_eviction store.records r (clamp_retention retention)
unfolding write record_request upsert upsert_final
write-records by_record store retention r = refl
write-records by_upsert store retention r = refl
write-records by_upsert_final store retention r = refl

write-disabled :
    (w : Write) (store : InspectorStore) (retention : ℕ) (r : InspectorRequestRecord)
    → write w store false retention r ≡ store
unfolding write record_request upsert upsert_final
write-disabled by_record store retention r = refl
write-disabled by_upsert store retention r = refl
write-disabled by_upsert_final store retention r = refl

clamp-positive : (n : ℕ) → 1 ≤ clamp_retention n
clamp-positive n = omega arith

write-IsUpserted :
    (w : Write) (store : InspectorStore) (retention : ℕ) (r : InspectorRequestRecord)
    → HasDistinctIds store.records
    → IsUpserted store.records r
        (clamp_retention retention)
        (write w store true retention r).records
write-IsUpserted w store retention r d = rw (write-records w store retention r) (
    upsert_with_fifo_eviction-IsUpserted store.records r (clamp_retention retention)
      (clamp-positive retention) d)

-- The store holds one record for an id at most, and no more than the retention, clamped to
-- between 1 and 100000.
pub record IsKept (retention : ℕ) (store : InspectorStore) : Type 0 where
  pub distinct : HasDistinctIds store.records
  pub bounded : retained_len store ≤ clamp_retention retention

-- Each of the three operations that write a record, enabled or not, keeps the ids of the store's
-- records distinct and their number within the clamped retention.
pub write-IsKept :
    (w : Write) (store : InspectorStore) (enabled : Bool) (retention : ℕ)
    (r : InspectorRequestRecord)
    → IsKept retention store
    → IsKept retention (write w store enabled retention r)
write-IsKept w store true retention r kept =
    let u = write-IsUpserted w store retention r kept.distinct in
    record { distinct = u.distinct; bounded = ground (arith, u.bounded, kept.bounded) }
write-IsKept w store false retention r kept = rw (write-disabled w store retention r) kept

-- After an enabled write the id of the record finds that record. Any other id finds what it found
-- before, unless its record was the oldest one of a full store and the written id was new: then it
-- finds nothing. The ids of the store's records are distinct.
pub get_record-write :
    (w : Write) (store : InspectorStore) (retention : ℕ) (r : InspectorRequestRecord) (j : String)
    → HasDistinctIds store.records
    → get_record (write w store true retention r) j ≡ (
        if id_of r == j
        then some r
        else if is_evicted store.records r (clamp_retention retention) j
        then none
        else get_record store j)
unfolding get_record
get_record-write w store retention r j d = (write-IsUpserted w store retention r d).found j
