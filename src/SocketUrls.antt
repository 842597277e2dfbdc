-- ===== src/SocketUrls.antt =====
-- `_build_channel_socket_urls` of client.py: the query of the socket's address, and of the address
-- that is logged. A URL is known by its parsed query; urlsplit, urlencode and urlunsplit put it
-- apart and together.
pub mod Redaction
use phoenix_channels_python.Base.{
  ℕ, ◌≡◌, refl, ◌∙◌, ap, ◌⊎◌, inl, inr, Bool, true, false, ◌&&◌, ◌||◌, not, Option, none, some,
  List, [], ◌∷◌, ◌++◌, arith, if◌then◌else◌, any, Bool-cases, Result, ok, err, value_error,
  token_with_api_key, All, All-append,
}
use phoenix_channels_python.Text.{Text, codes, text_eq, text_eq_iff, is_empty}
use phoenix_channels_python.Authentication.{
  AuthenticationHeader, api_key, token, api_key_parameter, token_parameter, Strings,
}

abbrev pub vsn_parameter : Text
vsn_parameter = codes "vsn"

abbrev pub hidden : Text
hidden = codes "***"

abbrev pub is_api_key : Option AuthenticationHeader → Bool
is_api_key (some api_key) = true
is_api_key _ = false

-- What the query of the connection's address and that of the logged one hold.
pub record Queries : Type 0 where
  pub connect : List (Text × Text)
  pub redacted : List (Text × Text)

module _ (strings : Strings) where
  -- `key.casefold() == parameter`
  unfoldable pub is_parameter : Text → Text → Bool
  is_parameter parameter key = text_eq (strings.casefold key) parameter

  unfoldable pub is_credential : Text → Bool
  unfolding is_parameter
  is_credential key = is_parameter api_key_parameter key || is_parameter token_parameter key

  unfoldable pub has_token : List (Text × Text) → Bool
  has_token [] = false
  has_token ((key, value) ∷ query) =
      (is_parameter token_parameter key && not (is_empty value)) || has_token query

  -- `key.casefold() in replaced_parameters`
  unfoldable pub is_replaced : Option AuthenticationHeader → Option Text → Text → Bool
  is_replaced (some h) k key = is_parameter vsn_parameter key || is_credential key
  is_replaced none (some k) key =
      is_parameter vsn_parameter key || is_parameter api_key_parameter key
  is_replaced none none key = is_parameter vsn_parameter key

  unfoldable pub filtered : (Text → Bool) → List (Text × Text) → List (Text × Text)
  filtered replaced [] = []
  filtered replaced ((key, value) ∷ query) =
      let rest = filtered replaced query in if replaced key then rest else (key, value) ∷ rest

  unfoldable pub authentication_params :
      Option AuthenticationHeader → Option Text → List (Text × Text)
  authentication_params (some h) k = []
  authentication_params none (some k) = (api_key_parameter, k) ∷ []
  authentication_params none none = []

  unfoldable pub redact : List (Text × Text) → List (Text × Text)
  redact [] = []
  redact ((key, value) ∷ query) = (key, if is_credential key then hidden else value) ∷ redact query

  unfoldable pub with_auth :
      List (Text × Text) → Option Text → Text → Option AuthenticationHeader → List (Text × Text)
  unfolding is_replaced filtered authentication_params
  with_auth query k version header =
      filtered (is_replaced header k) query
      ++ (authentication_params header k ++ (vsn_parameter, version) ∷ [])

  unfoldable pub build_channel_socket_urls :
      List (Text × Text) → Option Text → Text → Option AuthenticationHeader → Result Queries
  build_channel_socket_urls query k version header =
      if is_api_key header && has_token query
      then err (value_error token_with_api_key)
      else ok (record {
        connect = with_auth query k version header;
        redacted = redact (with_auth query k version header);
      })
