-- ===== src/Core/Config/Secrets/Backends.antt =====
-- What the resolved backends satisfy, from `resolve_backends` of config.rs.
use onair.Prelude.{
  ◌<◌, String, ◌≡◌, ◌≢◌, false, ◌||◌, List, [], ◌∷◌, arith, ◌==◌, All, contains_char, StringSet,
  contains, insert, contains-insert,
}
use onair.Core.Config.Types.{ResolvedBackend, BackendConfig, UnknownMarkerPolicy}
use onair.Core.Config.Result.{
  ConfigError, no_backends, Ensures, Ensures-ok, Ensures-err, Ensures-then, Ensures-bind,
}
use onair.Core.Config.Secrets.{Host, backends_from, reject_none, resolve_backends}

module _ {V : Type 0} where
  -- No two backends have one id.
  abbrev pub HasDistinctIds : List (ResolvedBackend V) → Type 0
  HasDistinctIds [] = Unit
  HasDistinctIds (b ∷ bs) = All (λ c. (b.id == c.id) ≡ false) bs × HasDistinctIds bs

  abbrev pub IsUsable : ResolvedBackend V → Type 0
  IsUsable b = (0 < b.weight) × (contains_char b'@' b.id ≡ false)

  abbrev Fresh : StringSet → List (ResolvedBackend V) → Type 0
  Fresh seen bs = All (λ b. contains seen b.id ≡ false) bs

  Fresh-of_insert :
      (x : String) (seen : StringSet) (bs : List (ResolvedBackend V))
      → Fresh (insert x seen) bs
      → All (λ c. (x == c.id) ≡ false) bs × Fresh seen bs
  Fresh-of_insert x seen [] h = (tt, tt)
  Fresh-of_insert x seen (b ∷ bs) (h, hs) =
      let (here, there) = Fresh-of_insert x seen bs hs in
      let both : (x == b.id || contains seen b.id) ≡ false = rw contains-insert at h in
      ((ground arith, here), (ground arith, there))

  abbrev Sound : StringSet → List (ResolvedBackend V) → Type 0
  Sound seen bs = All IsUsable bs × HasDistinctIds bs × Fresh seen bs

  backends_from-Sound :
      (host : Host) (policy : UnknownMarkerPolicy) (seen : StringSet) (raw : List (BackendConfig V))
      → Ensures (Sound seen) (backends_from host policy seen raw)
  unfolding backends_from
  backends_from-Sound host policy seen [] = Ensures-ok (tt, tt, tt)
  backends_from-Sound host policy seen (b ∷ raw) = Ensures-then _ _ _ λ _.
      Ensures-then _ _ _ λ reserved. Ensures-then _ _ _ λ fresh. Ensures-then _ _ _ λ weight.
        Ensures-bind _ _ λ url _. Ensures-bind _ _ λ key _. Ensures-bind _ _ λ _ _.
          Ensures-bind _ _ λ rest e.
            let (usable, distinct, unseen) =
              (backends_from-Sound host policy (insert b.id seen) raw).at rest e in
            let (others, older) = Fresh-of_insert b.id seen rest unseen in
            Ensures-ok (((ground arith, reserved), usable), (others, distinct), (fresh, older))

  -- There is a backend; each has a positive weight and an id without '@'; the ids are distinct.
  abbrev pub IsSound : List (ResolvedBackend V) → Type 0
  IsSound bs = (bs ≢ []) × All IsUsable bs × HasDistinctIds bs

  reject_none-IsSound :
      (e : ConfigError) (bs : List (ResolvedBackend V))
      → All IsUsable bs × HasDistinctIds bs
      → Ensures IsSound (reject_none e bs)
  unfolding reject_none
  reject_none-IsSound e [] h = Ensures-err
  reject_none-IsSound e (b ∷ bs) h = Ensures-ok (λ q. cc q, h.0, h.1)

  pub resolve_backends-IsSound :
      (host : Host) (raw : List (BackendConfig V)) (policy : UnknownMarkerPolicy)
      → Ensures IsSound (resolve_backends host raw policy)
  unfolding resolve_backends
  resolve_backends-IsSound host raw policy = Ensures-bind _ _ λ found e.
      let (usable, distinct, _) = (backends_from-Sound host policy [] raw).at found e in
      reject_none-IsSound no_backends found (usable, distinct)
