-- ===== src/Authentication.antt =====
-- authentication.py: which headers carry a credential.
pub mod Normal
use phoenix_channels_python.Base.{
  ℕ, ◌≡◌, refl, Bool, true, false, ◌&&◌, ◌||◌, not, Option, none, some, List, [], ◌∷◌, ◌++◌, arith,
  if◌then◌else◌, any, Result, ok, err, ◌>>=◌, value_error, bad_credential,
}
use phoenix_channels_python.Text.{Text, codes, text_eq}

abbrev pub api_key_parameter : Text
api_key_parameter = codes "api_key"

abbrev pub token_parameter : Text
token_parameter = codes "token"

-- AuthenticationHeader
pub data AuthenticationHeader : Type 0 where
  api_key token : AuthenticationHeader

unfoldable pub header_text : AuthenticationHeader → Text
header_text api_key = codes "x-api-key"
header_text token = codes "x-auth-token"

-- What the code takes from `str`: `casefold`, and whether `strip` leaves something.
pub record Strings : Type 0 where
  pub casefold : Text → Text
  pub is_blank : Text → Bool
  -- Lower-case ASCII is folded already, and folding twice changes nothing.
  pub casefold-header : (h : AuthenticationHeader) → casefold (header_text h) ≡ header_text h
  pub casefold-parameters :
      (casefold api_key_parameter ≡ api_key_parameter)
      × (casefold token_parameter ≡ token_parameter)
      × (casefold (codes "vsn") ≡ codes "vsn")

module _ (strings : Strings) where
  -- `name.casefold() == header`
  unfoldable pub names : AuthenticationHeader → Text → Bool
  names h name = text_eq (strings.casefold name) (header_text h)

  -- The values of a header, whatever the case of its name.
  unfoldable pub credentials : AuthenticationHeader → List (Text × Text) → List Text
  unfolding names
  credentials h [] = []
  credentials h ((name, value) ∷ headers) =
      let rest = credentials h headers in if names h name then value ∷ rest else rest

  unfoldable pub without : AuthenticationHeader → List (Text × Text) → List (Text × Text)
  unfolding names
  without h [] = []
  without h ((name, value) ∷ headers) =
      let rest = without h headers in if names h name then rest else (name, value) ∷ rest

  -- One pass of the loop: no credential, or one value that is not blank, which then stands last.
  unfoldable pub normalize_header :
      AuthenticationHeader → List (Text × Text) → Result (List (Text × Text))
  normalize_header h headers = elim (credentials h headers) [
    | [] ↦ ok headers
    | value ∷ values ↦
        if any strings.is_blank (value ∷ values) || any (λ v. not (text_eq v value)) values
        then err (value_error bad_credential)
        else ok (without h headers ++ (header_text h, value) ∷ [])
  ]

  -- `normalize_headers`, of a dict that is given.
  unfoldable pub normalize_headers : List (Text × Text) → Result (List (Text × Text))
  normalize_headers headers = do
    first ← normalize_header api_key headers
    normalize_header token first

has_header : AuthenticationHeader → List (Text × Text) → Bool
has_header h [] = false
has_header h ((name, value) ∷ headers) = text_eq name (header_text h) || has_header h headers

-- `select_authentication_header`: a token before an API key.
unfoldable pub select_authentication_header : List (Text × Text) → Option AuthenticationHeader
unfolding has_header
select_authentication_header headers =
    if has_header token headers
    then some token
    else if has_header api_key headers
    then some api_key
    else none
