-- ===== src/Core/Auth.antt =====
-- crates/onair-core/src/auth.rs: who sends a request. A header map is what it answers for a name:
-- the first value, if it is visible ASCII. The comparison `ct_eq` of the crate `subtle` is a
-- parameter.
pub mod Laws
use Prim.Native.String.{len}
use onair.Prelude.{
  String, Bool, not, ◌&&◌, List, [], ◌∷◌, Option, none, some, eqb, strip_prefix, is_empty, is_some,
  and_then, or_else, StringSet, if◌then◌else◌,
}
use onair.Core.Error.{ApiError, ApiResult, ok, err, authentication}
use onair.Core.Config.Types.{ResolvedClient}

abbrev pub Headers : Type 0
Headers = String → Option String

pub record Identity : Type 0 where
  pub id : String
  pub models : StringSet

unfoldable pub bearer_token : Headers → Option String
bearer_token headers = and_then (headers "authorization") (strip_prefix "Bearer ")

non_empty : String → Option String
non_empty value = if is_empty value then none else some value

unfoldable pub x_api_key : Headers → Option String
unfolding non_empty
x_api_key headers = and_then (headers "x-api-key") non_empty

unfoldable pub identity_of : ResolvedClient → Identity
identity_of client = record { id = client.id; models = client.models }

unfoldable pub invalid_message : Option String → String
invalid_message (some _) = "Invalid bearer token."
invalid_message none = "Invalid x-api-key."

answer : String → Option ResolvedClient → ApiResult Identity
answer message (some client) = ok (identity_of client)
answer message none = err (authentication message)

module _ (ct_eq : String → String → Bool) where
  token_matches : String → String → Bool
  token_matches input configured = eqb (len input) (len configured) && ct_eq input configured

  -- The loop runs through all clients and keeps the first match.
  match_client : String → Option ResolvedClient → List ResolvedClient → Option ResolvedClient
  match_client token matched [] = matched
  match_client token matched (client ∷ clients) =
      match_client token
        (if token_matches token client.api_key && not (is_some matched)
          then some client
          else matched)
        clients

  with_token : Option String → String → List ResolvedClient → ApiResult Identity
  with_token none message clients = err (authentication "Missing bearer token.")
  with_token (some token) message clients = answer message (match_client token none clients)

  unfoldable pub authenticate : Headers → List ResolvedClient → ApiResult Identity
  unfolding with_token match_client token_matches answer identity_of invalid_message bearer_token
      x_api_key non_empty
  authenticate headers clients =
      let bearer = bearer_token headers in
      with_token (or_else bearer (x_api_key headers)) (invalid_message bearer) clients
