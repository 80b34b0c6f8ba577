-- ===== src/Core/Config/Reload/Running.antt =====
-- What the running configuration is after a reload.
use onair.Prelude.{
  ℕ, zero, suc, ◌+◌, ◌≤◌, ◌<◌, subst, ◌≡◌, refl, sym, ◌⊎◌, inl, inr, Option, none, some, Bool-cases,
  leb, leb→le, arith,
}
use onair.Core.Config.Types.{ConfigFile, Config}
use onair.Core.Config.Result.{Result, ok, err}
use onair.Core.Config.Secrets.{Host}
use onair.Core.Config.Resolve.{resolve}
use onair.Core.Config.Resolve.Validity.{IsValid, resolve-IsValid}
use onair.Core.Config.Reload.{
  LoadError, ConfigStore, failed, loaded, load, loaded_from, try_reload_config,
  apply_reloaded_config, reload_from, reload_config_with_retries, config_reload_max_attempts,
}

same_or_next : (a k : ℕ) → a ≤ k → (k ≡ a) ⊎ (a + 1 ≤ k)
same_or_next a k h = elim (Bool-cases (leb (a + 1) k)) [
  | inl t ↦ inr (leb→le (a + 1) k t)
  | inr f ↦ inl (ground arith)
]

module _ {V : Type 0} where
  -- What the file holds gives no configuration.
  abbrev pub Fails : Host → Option (ConfigFile V) → Type 0
  Fails host file = (f : ConfigFile V) (c : Config V) → file ≡ some f → resolve host f ≡ ok c → ⊥

  -- What an attempt makes of a store.
  data Tried (host : Host) (file : Option (ConfigFile V)) (store : ConfigStore V)
      : Option LoadError × ConfigStore V → Type 0 where
    kept : (e : LoadError) → Fails host file → Tried host file store (some e, store)
    replaced :
        (f : ConfigFile V) (config : Config V)
        → file ≡ some f
        → resolve host f ≡ ok config
        → Tried host file store (none, record { inner = config })

  try_reload_config-Tried :
      (host : Host) (file : Option (ConfigFile V)) (store : ConfigStore V)
      → Tried host file store (try_reload_config host file store)
  unfolding try_reload_config load loaded_from apply_reloaded_config
  try_reload_config-Tried host none store = kept _ λ f c e r. cc e
  try_reload_config-Tried host (some f) store = go (resolve host f) refl
    where
      go :
          (r : Result (Config V))
          → resolve host f ≡ r
          → Tried host (some f) store (elim (loaded_from r) [
            | failed e ↦ (some e, store)
            | loaded config ↦ (none, apply_reloaded_config config store)
          ])
      go (err e) same = kept _ λ g c h r. cc (same, h, r)
      go (ok config) same = replaced f config refl same

  -- All the attempts from one on to another fail, and the store is as it was.
  abbrev pub IsKept :
      Host
      → (ℕ → Option (ConfigFile V))
      → ConfigStore V
      → ℕ
      → ℕ
      → Option LoadError × ConfigStore V
      → Type 0
  IsKept host file store first last result =
      ((e : LoadError) × (result ≡ (some e, store)))
      × ((k : ℕ) → first ≤ k → k ≤ last → Fails host (file k))

  -- One attempt succeeds, all before it fail, and the store holds the valid configuration that the
  -- file then gives.
  abbrev pub IsReplaced :
      Host → (ℕ → Option (ConfigFile V)) → ℕ → ℕ → Option LoadError × ConfigStore V → Type 0
  IsReplaced host file first last result =
      (n : ℕ) × (f : ConfigFile V) × (config : Config V) × ((first ≤ n)
        × (n ≤ last)
        × ((k : ℕ) → first ≤ k → k < n → Fails host (file k)))
      × ((file n ≡ some f) × (resolve host f ≡ ok config) × IsValid config)
      × (result ≡ (none, record { inner = config }))

  reload_from-settles :
      (host : Host) (file : ℕ → Option (ConfigFile V)) (attempt left : ℕ) (store : ConfigStore V)
      → let result = reload_from host file attempt left store in
        IsKept host file store attempt (attempt + left) result
        ⊎ IsReplaced host file attempt (attempt + left) result
  unfolding reload_from
  reload_from-settles host file attempt zero store =
      go (try_reload_config host (file attempt) store)
        (try_reload_config-Tried host (file attempt) store)
    where
      go :
          (r : Option LoadError × ConfigStore V)
          → Tried host (file attempt) store r
          → IsKept host file store attempt (attempt + 0) r
            ⊎ IsReplaced host file attempt (attempt + 0) r
      go _ (kept e fails) = inl (
        (e, refl),
        λ k low high.
            let same : attempt ≡ k = omega arith in subst (λ i. Fails host (file i)) same fails,
      )
      go _ (replaced f config held good) = inr (
        attempt,
        f,
        config,
        (omega arith, omega arith, λ k low high. omega arith),
        (held, good, resolve-IsValid host f config good),
        refl,
      )
  reload_from-settles host file attempt (suc left) store =
      go (try_reload_config host (file attempt) store)
        (try_reload_config-Tried host (file attempt) store)
        (reload_from-settles host file (attempt + 1) left)
    where
      go :
          (r : Option LoadError × ConfigStore V)
          → Tried host (file attempt) store r
          → ((s : ConfigStore V)
              → let result = reload_from host file (attempt + 1) left s in
                IsKept host file s (attempt + 1) (attempt + 1 + left) result
                ⊎ IsReplaced host file (attempt + 1) (attempt + 1 + left) result)
          → let result = elim r.0 as (λ x. Option LoadError × ConfigStore V) [
            | none ↦ (none, r.1)
            | some e ↦ reload_from host file (attempt + 1) left r.1
          ] in
            IsKept host file store attempt (attempt + suc left) result
            ⊎ IsReplaced host file attempt (attempt + suc left) result
      go _ (kept e fails) rest =
          let first : (k : ℕ) → k ≡ attempt → Fails host (file k) =
            λ k same. subst (λ i. Fails host (file i)) (sym same) fails in
          let later : attempt + 1 + left ≡ attempt + suc left = omega arith in
          elim (rest store) [
            | inl (end, all) ↦ inl (
              end,
              λ k low high. elim (same_or_next attempt k low) [
                | inl same ↦ first k same
                | inr above ↦ all k above (omega arith)
              ],
            )
            | inr (n, f, config, (low, high, all), good, same) ↦ inr (
              n,
              f,
              config,
              (
                omega arith,
                omega arith,
                λ k from to. elim (same_or_next attempt k from) [
                  | inl here ↦ first k here
                  | inr above ↦ all k above to
                ],
              ),
              good,
              same,
            )
          ]
      go _ (replaced f config held good) rest = inr (
        attempt,
        f,
        config,
        (omega arith, omega arith, λ k low high. omega arith),
        (held, good, resolve-IsValid host f config good),
        refl,
      )

  -- A reload either leaves the store as it was and reports an error, and then the file gave no
  -- configuration at any of the five attempts; or it stores the valid configuration that the file
  -- gave at the first attempt that did not fail.
  pub reload_config_with_retries-settles :
      (host : Host) (file : ℕ → Option (ConfigFile V)) (store : ConfigStore V)
      → let result = reload_config_with_retries host file store in
        IsKept host file store 1 config_reload_max_attempts result
        ⊎ IsReplaced host file 1 config_reload_max_attempts result
  unfolding reload_config_with_retries
  reload_config_with_retries-settles host file store = reload_from-settles host file 1 4 store
