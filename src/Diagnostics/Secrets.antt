-- ===== src/Diagnostics/Secrets.antt =====
-- `diagnostic_secrets` of diagnostics.py: the credentials that a connection's logger hides.
use phoenix_channels_python.Base.{
  ◌||◌, ◌&&◌, Bool-cases, inl, inr, arith, ◌≡◌, refl, Bool, Option, none, some, List, [], ◌∷◌, ◌++◌,
  if◌then◌else◌, any, arith,
}
use phoenix_channels_python.Text.{Text, codes, text_eq}
use phoenix_channels_python.Authentication.{
  api_key_parameter, token_parameter, api_key, token, header_text, Strings,
}

-- `AUTHENTICATION_NAMES`
abbrev pub authentication_names : List Text
authentication_names =
    api_key_parameter
    ∷ token_parameter
    ∷ header_text api_key
    ∷ header_text token
    ∷ codes "x-token"
    ∷ codes "authorization"
    ∷ codes "cookie"
    ∷ []

abbrev pub key_or_none : Option Text → List Text
key_or_none none = []
key_or_none (some k) = k ∷ []

any-append :
    (p : Text × Text → Bool) (xs ys : List (Text × Text))
    → any p (xs ++ ys) ≡ (any p xs || any p ys)
any-append p [] ys = refl
any-append p (x ∷ xs) ys = ground (arith, any-append p xs ys)

has-append :
    (v : Text) (xs ys : List Text)
    → any (text_eq v) (xs ++ ys) ≡ (any (text_eq v) xs || any (text_eq v) ys)
has-append v [] ys = refl
has-append v (x ∷ xs) ys = ground (arith, has-append v xs ys)

-- The names under which a URL's query or a header carries a credential, in lower case.
abbrev pub is_credential_name : Text → Bool
is_credential_name name =
    text_eq name (codes "api_key")
    || text_eq name (codes "token")
    || text_eq name (codes "x-api-key")
    || text_eq name (codes "x-auth-token")
    || text_eq name (codes "x-token")
    || text_eq name (codes "authorization")
    || text_eq name (codes "cookie")

authentication_names-any :
    (name : Text) → any (text_eq name) authentication_names ≡ is_credential_name name
unfolding header_text
authentication_names-any name = ground arith

module _ (strings : Strings) where
  -- The values of the names that `AUTHENTICATION_NAMES` has.
  unfoldable pub secret_values : List (Text × Text) → List Text
  secret_values [] = []
  secret_values ((name, value) ∷ items) =
      let rest = secret_values items in
      if any (text_eq (strings.casefold name)) authentication_names then value ∷ rest else rest

  -- `diagnostic_secrets`, of the query of the URL, as `parse_qsl` gives it. It is a set: how often and
  -- where a secret stands says nothing.
  unfoldable pub diagnostic_secrets :
      List (Text × Text) → Option Text → List (Text × Text) → List Text
  unfolding secret_values
  diagnostic_secrets query k headers =
      key_or_none k ++ (secret_values query ++ secret_values headers)

  -- Does an item carry the value as a credential?
  abbrev pub carries : Text → Text × Text → Bool
  carries value (name, other) = is_credential_name (strings.casefold name) && text_eq value other

  secret_values-any :
      (v : Text) (items : List (Text × Text))
      → any (text_eq v) (secret_values items) ≡ any (carries v) items
  unfolding secret_values
  secret_values-any v [] = refl
  secret_values-any v ((name, value) ∷ items) =
      rw (authentication_names-any (strings.casefold name))
        (elim (Bool-cases (is_credential_name (strings.casefold name))) [
          | inl own ↦ rw (own, secret_values-any v items) refl
          | inr foreign ↦ rw (foreign, secret_values-any v items) refl
        ])

  -- The secrets that a connection's logger is given are the API key, and the values that the query of the
  -- URL and the headers have under one of the seven names of a credential, whatever the case of the name;
  -- and no others.
  pub diagnostic_secrets-any :
      (query : List (Text × Text)) (k : Option Text) (headers : List (Text × Text)) (v : Text)
      → any (text_eq v) (diagnostic_secrets query k headers)
        ≡ (any (text_eq v) (key_or_none k) || any (carries v) (query ++ headers))
  unfolding diagnostic_secrets
  diagnostic_secrets-any query k headers v =
      rw
        (
          has-append v (key_or_none k) (secret_values query ++ secret_values headers),
          has-append v (secret_values query) (secret_values headers),
          secret_values-any v query,
          secret_values-any v headers,
          any-append (carries v) query headers,
        )
        refl
