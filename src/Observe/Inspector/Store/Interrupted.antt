-- ===== src/Observe/Inspector/Store/Interrupted.antt =====
-- What the end of the store does to the requests that are in flight.
use onair.Prelude.{
  ℕ, ◌≡◌, refl, sym, inl, inr, true, false, List, [], ◌∷◌, ◌++◌, map, Option, some, All, Elem, here,
  there, Bool-cases, filter,
}
use onair.Observe.Inspector.Records.{InspectorRequestRecord, interrupted}
use onair.Observe.Inspector.Store.{
  InspectorStore, Written, drop_store, drop_with, is_in_flight, is_interrupted, interrupt_in_flight,
  mark_record_interrupted, max_retention_requests,
}

interrupt_in_flight-ended :
    (r : InspectorRequestRecord) → is_in_flight (interrupt_in_flight r).outcome ≡ false
interrupt_in_flight-ended r = elim (Bool-cases (is_in_flight r.outcome)) [
  | inl t ↦ rw t refl
  | inr f ↦ rw f f
]

none_in_flight :
    (rs : List InspectorRequestRecord)
    → All
        (λ (r : InspectorRequestRecord). is_in_flight r.outcome ≡ false)
        (map interrupt_in_flight rs)
none_in_flight [] = _
none_in_flight (r ∷ rs) = (interrupt_in_flight-ended r, none_in_flight rs)

abbrev cut_short : List InspectorRequestRecord → List InspectorRequestRecord
cut_short rs = filter (λ (r : InspectorRequestRecord). is_interrupted r.outcome) rs

Elem-cut_short :
    (rs : List InspectorRequestRecord) {r : InspectorRequestRecord}
    → Elem r rs
    → is_interrupted r.outcome ≡ true
    → Elem {A = InspectorRequestRecord × ℕ}
        (r, max_retention_requests)
        (map (λ (x : InspectorRequestRecord). (x, max_retention_requests)) (cut_short rs))
Elem-cut_short [] m t = elim m [ ]
Elem-cut_short (x ∷ xs) {r} (here e) t = rw (sym e) (rw t (here refl))
Elem-cut_short (x ∷ xs) (there m) t = elim (Bool-cases (is_interrupted x.outcome)) [
  | inl b ↦ rw b (there (Elem-cut_short xs m t))
  | inr b ↦ rw b (Elem-cut_short xs m t)
]

Elem-map_interrupt :
    (rs : List InspectorRequestRecord) {r : InspectorRequestRecord}
    → Elem r rs
    → is_in_flight r.outcome ≡ true
    → Elem (mark_record_interrupted r) (map interrupt_in_flight rs)
Elem-map_interrupt [] m t = elim m [ ]
Elem-map_interrupt (x ∷ xs) (here e) t = here (rw (sym e) (rw t refl))
Elem-map_interrupt (x ∷ xs) (there m) t = there (Elem-map_interrupt xs m t)

-- A record as it was, but ended: interrupted, with status 503 and that kind of error.
pub record IsCutShort (r w : InspectorRequestRecord) : Type 0 where
  pub outcome : w.outcome ≡ interrupted
  pub status : w.status ≡ 503
  pub error_kind : w.error_kind ≡ some "interrupted"
  pub base : w.base ≡ r.base
  pub backend_attempts : w.backend_attempts ≡ r.backend_attempts
  pub retried_attempts : w.retried_attempts ≡ r.retried_attempts
  pub timeline : w.timeline ≡ r.timeline

mark_record_interrupted-IsCutShort :
    (r : InspectorRequestRecord) → IsCutShort r (mark_record_interrupted r)
mark_record_interrupted-IsCutShort r = record {
  outcome = refl;
  status = refl;
  error_kind = refl;
  base = refl;
  backend_attempts = refl;
  retried_attempts = refl;
  timeline = refl;
}

-- When a store with persistence ends, no record is left in flight, and every record that was is
-- handed to the writer, after what it got before and with the largest retention, as interrupted
-- with status 503 and otherwise with the request, the attempts and the timeline it had.
pub drop_store-interrupts :
    (store : InspectorStore) (log : Written)
    → store.persistence ≡ some log
    → All (λ (r : InspectorRequestRecord). is_in_flight r.outcome ≡ false) (drop_store store).0
      × ((more : Written) × ((drop_store store).1 ≡ some (log ++ more))
          × ((r : InspectorRequestRecord)
              → Elem r store.records
              → is_in_flight r.outcome ≡ true
              → (w : InspectorRequestRecord) × Elem {A = InspectorRequestRecord × ℕ}
                  (w, 100000)
                  more
                × IsCutShort r w))
unfolding drop_store
drop_store-interrupts store log persists = go store.persistence persists
  where
    go :
        (p : Option Written)
        → p ≡ some log
        → All
            (λ (r : InspectorRequestRecord). is_in_flight r.outcome ≡ false)
            (drop_with store.records p).0
          × ((more : Written) × ((drop_with store.records p).1 ≡ some (log ++ more))
              × ((r : InspectorRequestRecord)
                  → Elem r store.records
                  → is_in_flight r.outcome ≡ true
                  → (w : InspectorRequestRecord) × Elem {A = InspectorRequestRecord × ℕ}
                      (w, 100000)
                      more
                    × IsCutShort r w))
    go p e = rw e (
      none_in_flight store.records,
      (
        map (λ (x : InspectorRequestRecord). (x, max_retention_requests))
            (cut_short (map interrupt_in_flight store.records)),
        refl,
        λ r m t. (
          mark_record_interrupted r,
          Elem-cut_short (map interrupt_in_flight store.records)
              (Elem-map_interrupt store.records m t) refl,
          mark_record_interrupted-IsCutShort r,
        ),
      ),
    )
