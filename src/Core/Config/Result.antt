-- ===== src/Core/Config/Result.antt =====
-- The errors of config.rs. Each is the case of its message, with the values that the message names.
use onair.Prelude.{String, Bool, true, false, Option, ◌≡◌, refl, subst}
use onair.Core.Config.Types.{RouteKey}

pub data ConfigError : Type 0 where
  health_interval_zero health_timeout_zero health_path_not_rooted : ConfigError
  health_path_absolute health_path_control : ConfigError
  retention_zero retention_too_large : ConfigError
  persistence_path_required persistence_path_empty : ConfigError
  drain_timeout_zero drain_timeout_too_large : ConfigError
  capture_directory_empty capture_directory_parent capture_directory_unnamed : ConfigError
  fallback_attempts_too_large : ConfigError
  client_id_empty no_clients backend_id_empty no_backends backend_secret_conflict : ConfigError
  duplicate_client secret_conflict secret_required missing_env : String → ConfigError
  backend_id_reserved duplicate_backend weight_zero : String → ConfigError
  base_url_empty base_url_invalid base_url_scheme base_url_host : String → ConfigError
  base_url_credentials base_url_query : String → ConfigError
  unknown_marker : String → String → ConfigError
  route_key_ambiguous : Option String → Option String → ConfigError
  duplicate_route : RouteKey → ConfigError
  header_name_invalid header_value_invalid : RouteKey → String → ConfigError
  backend_id_missing model_empty : String → ConfigError
  unknown_backend : RouteKey → String → ConfigError
  model_without_route : String → String → ConfigError

pub data Result {ℓ} (A : Type ℓ) : Type ℓ where
  err : (e : ConfigError) → Result A
  ok : (a : A) → Result A

infixl 5 ◌>>=◌ ◌>>◌
unfoldable pub ◌>>=◌ {ℓ κ} : {A : Type ℓ} {B : Type κ} → Result A → (A → Result B) → Result B
err e >>= f = err e
ok a >>= next = next a

abbrev pub ◌>>◌ {ℓ} : {B : Type ℓ} → Result (Unit {0}) → Result B → Result B
first >> later = first >>= λ _. later

-- `if test { return Err(e); }`
unfoldable pub fail_if : Bool → ConfigError → Result (Unit {0})
fail_if true e = err e
fail_if false e = ok tt

abbrev pub ok_or {ℓ} : {A : Type ℓ} → Option A → ConfigError → Result A
ok_or Option.none e = err e
ok_or (Option.some a) e = ok a

-- `P` holds of the value, if there is one.
pub record Ensures {ℓ κ} {A : Type ℓ} (P : A → Type κ) (r : Result A) : Type (ℓ ⊔ κ) where
  pub at : (a : A) → r ≡ ok a → P a

module _ {ℓ κ} {A : Type ℓ} {P : A → Type κ} where
  pub Ensures-ok : {a : A} → P a → Ensures P (ok a)
  Ensures-ok h = record { at = λ b e. subst P (cc e) h }

  pub Ensures-err : {e : ConfigError} → Ensures P (err e)
  Ensures-err = record { at = λ b e. cc e }

  pub Ensures-then :
      (t : Bool) (e : ConfigError) (k : Result A)
      → (t ≡ false → Ensures P k)
      → Ensures P (fail_if t e >> k)
  unfolding ◌>>=◌ fail_if
  Ensures-then true e k h = Ensures-err
  Ensures-then false e k h = h refl

module _ {ℓ κ ι} {A : Type ℓ} {B : Type κ} {P : B → Type ι} where
  pub Ensures-bind :
      (m : Result A) (f : A → Result B)
      → ((a : A) → m ≡ ok a → Ensures P (f a))
      → Ensures P (m >>= f)
  unfolding ◌>>=◌
  Ensures-bind (ok a) f h = h a refl
  Ensures-bind (err e) f h = Ensures-err

pub ok_or-eq-ok {ℓ} :
    {A : Type ℓ} (o : Option A) (e : ConfigError) {a : A} → ok_or o e ≡ ok a → o ≡ Option.some a
ok_or-eq-ok Option.none e h = cc h
ok_or-eq-ok (Option.some b) e h = cc h

pub fail_if-eq-ok : (t : Bool) (e : ConfigError) {u : Unit {0}} → fail_if t e ≡ ok u → t ≡ false
unfolding fail_if
fail_if-eq-ok true e h = cc h
fail_if-eq-ok false e h = refl
