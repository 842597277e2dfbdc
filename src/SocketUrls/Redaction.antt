-- ===== src/SocketUrls/Redaction.antt =====
-- What the two addresses hold.
use phoenix_channels_python.Base.{
  is_some, ◌≡◌, refl, Bool, true, ◌||◌, Option, none, some, List, [], ◌∷◌, ◌++◌, arith,
  if◌then◌else◌, ok, map,
}
use phoenix_channels_python.Text.{Text, text_eq, text_eq_iff}
use phoenix_channels_python.Authentication.{
  AuthenticationHeader, api_key_parameter, token_parameter, Strings,
}
use phoenix_channels_python.SocketUrls.{
  vsn_parameter, hidden, Queries, is_parameter, is_credential, is_replaced, filtered,
  authentication_params, redact, with_auth, build_channel_socket_urls,
}

module _ (strings : Strings) where
  -- The values of a parameter, whatever the case of its name.
  unfoldable pub values_of : Text → List (Text × Text) → List Text
  values_of p [] = []
  values_of p ((key, value) ∷ query) =
      let rest = values_of p query in if is_parameter strings p key then value ∷ rest else rest

  values_of-append :
      (p : Text) (q r : List (Text × Text)) → values_of p (q ++ r) ≡ values_of p q ++ values_of p r
  unfolding values_of
  values_of-append p [] r = refl
  values_of-append p ((key, value) ∷ q) r = ground (arith, values_of-append p q r)

  -- What is replaced leaves nothing of itself.
  values_of-filtered :
      (p : Text) (replaced : Text → Bool) (q : List (Text × Text))
      → ((key : Text) → is_parameter strings p key ≡ true → replaced key ≡ true)
      → values_of p (filtered strings replaced q) ≡ []
  unfolding values_of filtered
  values_of-filtered p replaced [] h = refl
  values_of-filtered p replaced ((key, value) ∷ q) h =
      ground (arith, values_of-filtered p replaced q h, h key)

  -- What is added behind the filtered query.
  added : Option AuthenticationHeader → Option Text → Text → List (Text × Text)
  added header k version = authentication_params strings header k ++ (vsn_parameter, version) ∷ []

  added-vsn :
      (header : Option AuthenticationHeader) (k : Option Text) (version : Text)
      → values_of vsn_parameter (added header k version) ≡ version ∷ []
  unfolding added values_of authentication_params is_parameter text_eq
  added-vsn (some h) k version = rw strings.casefold-parameters.2
  added-vsn none (some k) version =
      rw (strings.casefold-parameters.2, strings.casefold-parameters.0)
  added-vsn none none version = rw strings.casefold-parameters.2

  added-api_key :
      (header : Option AuthenticationHeader) (k version : Text)
      → values_of api_key_parameter (added header (some k) version)
        ≡ (if is_some header then [] else k ∷ [])
  unfolding added values_of authentication_params is_parameter text_eq
  added-api_key (some h) k version = rw strings.casefold-parameters.2
  added-api_key none k version = rw (strings.casefold-parameters.2, strings.casefold-parameters.0)

  is_replaced-vsn :
      (header : Option AuthenticationHeader) (k : Option Text) (key : Text)
      → is_parameter strings vsn_parameter key ≡ true
      → is_replaced strings header k key ≡ true
  unfolding is_replaced
  is_replaced-vsn (some h) k key e = rw e
  is_replaced-vsn none (some k) key e = rw e
  is_replaced-vsn none none key e = e

  is_replaced-api_key :
      (header : Option AuthenticationHeader) (k key : Text)
      → is_parameter strings api_key_parameter key ≡ true
      → is_replaced strings header (some k) key ≡ true
  unfolding is_replaced is_credential
  is_replaced-api_key (some h) k key e = ground arith
  is_replaced-api_key none k key e = ground arith

  -- An API key that is given stands in the address once, and nothing else does for it; with a
  -- credential in the headers no API key stands there.
  pub build_channel_socket_urls-api_key :
      (query : List (Text × Text)) (k version : Text) (header : Option AuthenticationHeader)
      {urls : Queries}
      → build_channel_socket_urls strings query (some k) version header ≡ ok urls
      → values_of api_key_parameter urls.connect ≡ (if is_some header then [] else k ∷ [])
  unfolding build_channel_socket_urls with_auth
  build_channel_socket_urls-api_key query k version header {urls} h =
      let replaced = is_replaced strings header (some k) in
      let rest = added header (some k) version in
      let e : urls.connect ≡ filtered strings replaced query ++ rest =
        unfold added in ground arith in
      let none_left =
        values_of-filtered api_key_parameter replaced query (is_replaced-api_key header k) in
      rw (e, values_of-append api_key_parameter (filtered strings replaced query) rest, none_left)
        (added-api_key header k version)

  -- The address of the connection names the protocol's version once, and as given.
  pub build_channel_socket_urls-vsn :
      (query : List (Text × Text)) (k : Option Text) (version : Text)
      (header : Option AuthenticationHeader) {urls : Queries}
      → build_channel_socket_urls strings query k version header ≡ ok urls
      → values_of vsn_parameter urls.connect ≡ version ∷ []
  unfolding build_channel_socket_urls with_auth
  build_channel_socket_urls-vsn query k version header {urls} h =
      let replaced = is_replaced strings header k in
      let rest = added header k version in
      let e : urls.connect ≡ filtered strings replaced query ++ rest =
        unfold added in ground arith in
      let none_left = values_of-filtered vsn_parameter replaced query (is_replaced-vsn header k) in
      rw (e, values_of-append vsn_parameter (filtered strings replaced query) rest, none_left)
        (added-vsn header k version)

  -- The values that the logged address shows of a parameter.
  abbrev pub shown : Text → List Text → List Text
  shown p vs =
      if text_eq p api_key_parameter || text_eq p token_parameter then map (λ v. hidden) vs else vs

  redact-shown :
      (p : Text) (q : List (Text × Text)) → values_of p (redact strings q) ≡ shown p (values_of p q)
  unfolding redact values_of is_credential is_parameter
  redact-shown p [] = ground arith
  redact-shown p ((key, value) ∷ q) = ground (
    arith,
    redact-shown p q,
    text_eq_iff (strings.casefold key) p,
    text_eq_iff (strings.casefold key) api_key_parameter,
    text_eq_iff (strings.casefold key) token_parameter,
    text_eq_iff p api_key_parameter,
    text_eq_iff p token_parameter,
  )

  -- The logged address shows of every parameter what the connection's address has, but for the values
  -- of an API key or a token, which it hides.
  pub build_channel_socket_urls-redacted :
      (query : List (Text × Text)) (k : Option Text) (version : Text)
      (header : Option AuthenticationHeader) {urls : Queries} (p : Text)
      → build_channel_socket_urls strings query k version header ≡ ok urls
      → values_of p urls.redacted ≡ shown p (values_of p urls.connect)
  unfolding build_channel_socket_urls
  build_channel_socket_urls-redacted query k version header {urls} p h =
      let params = with_auth strings query k version header in
      let e : urls ≡ record { connect = params; redacted = redact strings params } = ground arith in
      rw e (redact-shown p params)
