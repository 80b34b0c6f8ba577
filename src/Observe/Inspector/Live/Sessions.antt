-- ===== src/Observe/Inspector/Live/Sessions.antt =====
-- The whole session of a live record: published, updated any number of times, finalized.
use onair.Prelude.{◌≡◌, refl, ◌∙◌, true, List, [], ◌∷◌, some, eq_iff, if_cases, All, arith}
use onair.Observe.Inspector.Records.{InspectorRequestRecord, id_of}
use onair.Observe.Inspector.Store.{InspectorStore, get_record}
use onair.Observe.Inspector.Store.Writes.{
  by_upsert, by_upsert_final, write, write-IsKept, IsKept, get_record-write,
}
use onair.Observe.Inspector.Live.{LiveRecord, publish_initial, update, finalize, with_started}

unfoldable pub updates :
    List (InspectorRequestRecord → InspectorRequestRecord)
    → LiveRecord × InspectorStore
    → LiveRecord × InspectorStore
updates [] (live, store) = (live, store)
updates (mutate ∷ later) (live, store) = updates later (update mutate live store)

-- `publish_initial`, the updates in order, `finalize`.
unfoldable pub session :
    LiveRecord
    → List (InspectorRequestRecord → InspectorRequestRecord)
    → InspectorRequestRecord
    → InspectorStore
    → InspectorStore
session live mutations final_record store =
    let (last, updated) = updates mutations (live, publish_initial live store) in
    finalize last final_record updated

unfoldable pub KeepsStart : (InspectorRequestRecord → InspectorRequestRecord) → Type 0
KeepsStart mutate =
    (r : InspectorRequestRecord) → (mutate r).base.started_at_unix_ms ≡ r.base.started_at_unix_ms

-- What the updates keep of the live record, and that the store stays well formed.
record Continues (live : LiveRecord) (s : LiveRecord × InspectorStore) : Type 0 where
  enabled : s.0.enabled ≡ live.enabled
  retention : s.0.retention_requests ≡ live.retention_requests
  started : s.0.current.base.started_at_unix_ms ≡ live.current.base.started_at_unix_ms
  kept : IsKept live.retention_requests s.1

update-Continues :
    (live : LiveRecord) (mutate : InspectorRequestRecord → InspectorRequestRecord)
    (s : LiveRecord × InspectorStore)
    → KeepsStart mutate
    → Continues live s
    → Continues live (update mutate s.0 s.1)
unfolding update KeepsStart write
update-Continues live mutate (now, store) keeps c =
    if_cases (Continues live) now.enabled
      (λ t. record {
        enabled = c.enabled;
        retention = c.retention;
        started = keeps now.current ∙ c.started;
        kept = rw c.retention (
            write-IsKept by_upsert store now.enabled live.retention_requests (mutate now.current)
              c.kept);
      })
      (λ f. c)

updates-Continues :
    (live : LiveRecord) (mutations : List (InspectorRequestRecord → InspectorRequestRecord))
    (s : LiveRecord × InspectorStore)
    → All KeepsStart mutations
    → Continues live s
    → Continues live (updates mutations s)
unfolding updates
updates-Continues live [] (now, store) keep c = c
updates-Continues live (mutate ∷ later) (now, store) keep c =
    updates-Continues live later (update mutate now store) keep.1
      (update-Continues live mutate (now, store) keep.0 c)

publish_initial-Continues :
    (live : LiveRecord) (store : InspectorStore)
    → IsKept live.retention_requests store
    → Continues live (live, publish_initial live store)
unfolding publish_initial write
publish_initial-Continues live store kept = record {
  enabled = refl;
  retention = refl;
  started = refl;
  kept =
      if_cases (IsKept live.retention_requests) live.enabled
        (λ t. write-IsKept by_upsert store live.enabled live.retention_requests live.current kept)
        (λ f. kept);
}

-- After the session of an enabled live record the id of the final record finds that record, with
-- the start of the initial one, and the store still has distinct ids and at most the retained
-- number of records. The updates keep the start, and the store before is as well formed.
pub session-keeps_final :
    (live : LiveRecord) (mutations : List (InspectorRequestRecord → InspectorRequestRecord))
    (final_record : InspectorRequestRecord) (store : InspectorStore)
    → live.enabled ≡ true
    → All KeepsStart mutations
    → IsKept live.retention_requests store
    → (get_record (session live mutations final_record store) (id_of final_record)
        ≡ some (with_started live.current.base.started_at_unix_ms final_record))
      × IsKept live.retention_requests (session live mutations final_record store)
unfolding session finalize write
session-keeps_final live mutations final_record store on keep kept =
    let c =
      updates-Continues live mutations (live, publish_initial live store) keep
        (publish_initial-Continues live store kept) in
    let updated = (updates mutations (live, publish_initial live store)).1 in
    let last = with_started live.current.base.started_at_unix_ms final_record in
    let found =
      get_record-write by_upsert_final updated live.retention_requests last (id_of final_record)
        c.kept.distinct in
    rw (c.enabled ∙ on) (
      rw c.retention (
        rw c.started (
          found ∙ ground (arith, eq_iff (id_of final_record) (id_of final_record)),
          write-IsKept by_upsert_final updated true live.retention_requests last c.kept,
        )))
