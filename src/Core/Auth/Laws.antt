-- ===== src/Core/Auth/Laws.antt =====
-- Who is let in, from auth.rs.
use Prim.Native.String.{len}
use text.Mathlib.TextPositions.{eq_refl}
use onair.Prelude.{
  String, ◌≡◌, refl, ◌↔◌, Bool, true, false, Bool-cases, ◌&&◌, List, [], ◌∷◌, Option, none, some,
  arith, ◌==◌, eq_iff, eqb_iff, find, or_else, inl, inr,
}
use onair.Core.Error.{ApiResult, ok, err, authentication}
use onair.Core.Config.Types.{ResolvedClient}
use onair.Core.Auth.{
  Headers, Identity, bearer_token, x_api_key, identity_of, invalid_message, answer, token_matches,
  match_client, with_token, authenticate,
}

-- The token that a request presents: a bearer token wins over the header x-api-key.
abbrev pub presented : Headers → Option String
presented headers = or_else (bearer_token headers) (x_api_key headers)

-- The clients whose key is the token.
abbrev pub holds_key : String → ResolvedClient → Bool
holds_key token client = client.api_key == token

-- What the documentation of `subtle` says of `ct_eq` on slices of one length.
abbrev pub ComparesContents : (String → String → Bool) → Type 0
ComparesContents ct_eq = (a b : String) → len a ≡ len b → (ct_eq a b ≡ true) ↔ (a ≡ b)

module _ (ct_eq : String → String → Bool) (compares : ComparesContents ct_eq) where
  token_matches-eq_beq : (token key : String) → token_matches ct_eq token key ≡ (key == token)
  unfolding token_matches
  token_matches-eq_beq token key = elim (Bool-cases (key == token)) [
    | inl e ↦
        let same = (eq_iff key token).0 e in
        rw (same, eq_refl token, (eqb_iff (len token) (len token)).1 refl)
          ((compares token token refl).1 refl)
    | inr e ↦ ground (arith, compares token key, eq_iff key token)
  ]

  match_client-some :
      (token : String) (c : ResolvedClient) (clients : List ResolvedClient)
      → match_client ct_eq token (some c) clients ≡ some c
  unfolding match_client
  match_client-some token c [] = refl
  match_client-some token c (d ∷ clients) =
      let unused : (token_matches ct_eq token d.api_key && false) ≡ false = ground arith in
      rw unused (match_client-some token c clients)

  -- The constant-time loop finds what a search from the front finds.
  match_client-eq_find :
      (token : String) (clients : List ResolvedClient)
      → match_client ct_eq token none clients ≡ find (holds_key token) clients
  unfolding match_client
  match_client-eq_find token [] = refl
  match_client-eq_find token (c ∷ clients) =
      rw (token_matches-eq_beq token c.api_key) (elim (Bool-cases (c.api_key == token)) [
        | inl e ↦ rw e (match_client-some token c clients)
        | inr e ↦ rw e (match_client-eq_find token clients)
      ])

-- The answer by the first client with the token.
abbrev pub admitted : Headers → List ResolvedClient → ApiResult Identity
admitted headers clients = elim (presented headers) [
  | none ↦ err (authentication "Missing bearer token.")
  | some token ↦ elim (find (holds_key token) clients) [
    | none ↦ err (authentication (invalid_message (bearer_token headers)))
    | some client ↦ ok (identity_of client)
  ]
]

module _ (ct_eq : String → String → Bool) (compares : ComparesContents ct_eq) where
  with_token-eq :
      (o : Option String) (message : String) (clients : List ResolvedClient)
      → with_token ct_eq o message clients ≡ (elim o [
        | none ↦ err (authentication "Missing bearer token.")
        | some token ↦ elim (find (holds_key token) clients) [
          | none ↦ err (authentication message)
          | some client ↦ ok (identity_of client)
        ]
      ])
  unfolding with_token answer
  with_token-eq none message clients = refl
  with_token-eq (some token) message clients =
      rw (match_client-eq_find ct_eq compares token clients)
        (answer-eq message (find (holds_key token) clients))
    where
      answer-eq :
          (message : String) (o : Option ResolvedClient)
          → answer message o ≡ (elim o [
            | none ↦ err (authentication message)
            | some client ↦ ok (identity_of client)
          ])
      answer-eq message none = refl
      answer-eq message (some client) = refl

  -- With a comparison as documented: a request without a token is refused, and any other gets the
  -- identity of the first client whose key is the token presented, or the refusal that names the
  -- header it came in; whatever the other header holds, a bearer token decides.
  pub authenticate-eq_admitted :
      (headers : Headers) (clients : List ResolvedClient)
      → authenticate ct_eq headers clients ≡ admitted headers clients
  unfolding authenticate
  authenticate-eq_admitted headers clients =
      with_token-eq (presented headers) (invalid_message (bearer_token headers)) clients
