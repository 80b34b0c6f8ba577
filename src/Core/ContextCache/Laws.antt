-- ===== src/Core/ContextCache/Laws.antt =====
-- What the cache of context sizes remembers.
use onair.Prelude.{
  ℕ, String, ◌≡◌, Option, none, some, [], ◌∷◌, arith, ◌==◌, eq_iff, StringSet, get-put, contains,
  if◌then◌else◌,
}
use onair.Core.ContextCache.{ContextSizeCache, lookup, set, prune}

-- What a lookup answers after a call of `set`: nothing is observed where there is neither a value
-- nor an error, and an error forgets the old value.
abbrev pub observed : Option ℕ → Option ℕ → Option String → Option ℕ
observed old none none = old
observed old v kind = v

-- After a call of `set`, that model's lookup answers the value observed, so an error forgets the
-- old size; with neither a value nor an error nothing changes. Other models keep their answer.
pub lookup-set :
    (cache : ContextSizeCache) (now : ℕ) (m j : String) (v : Option ℕ) (kind : Option String)
    → lookup (set cache now m v kind) j
      ≡ (if m == j then observed (lookup cache j) v kind else lookup cache j)
unfolding lookup set
lookup-set cache now m j none none = ground arith
lookup-set cache now m j (some v) none = rw get-put (ground arith)
lookup-set cache now m j none (some kind) = rw get-put (ground arith)
lookup-set cache now m j (some v) (some kind) = rw get-put (ground arith)

-- Pruning forgets exactly the models that are not active.
pub lookup-prune :
    (cache : ContextSizeCache) (active : StringSet) (j : String)
    → lookup (prune cache active) j ≡ (if contains active j then lookup cache j else none)
unfolding lookup prune
lookup-prune [] active j = ground arith
lookup-prune ((k, e) ∷ cache) active j = ground (arith, lookup-prune cache active j, eq_iff k j)
