-- ===== src/Examples/Addresses.antt =====
-- Headers, addresses and close reasons at work.
use phoenix_channels_python.Base.{◌||◌, ◌++◌, ◌≡◌, refl, none, some, List, [], ◌∷◌, ok, any}
use phoenix_channels_python.Text.{Text, codes, text_eq}
use phoenix_channels_python.Text.Utf8
use phoenix_channels_python.Text.Utf8.Truncate.{Cut}
use phoenix_channels_python.Authentication.{
  without, credentials, normalize_header, api_key, token, header_text, Strings, normalize_headers,
  token_parameter,
}
use phoenix_channels_python.Authentication.Normal.{Normal, normalize_headers-Normal}
use phoenix_channels_python.SocketUrls.{
  is_credential, is_parameter, redact, with_auth, Queries, build_channel_socket_urls,
}
use phoenix_channels_python.SocketUrls.Redaction.{
  values_of, shown, build_channel_socket_urls-redacted,
}
use phoenix_channels_python.Diagnostics.{
  code_defined, string, other, arguments, between, placeholder, Logging, render_message, hide,
  render_message-hide, state_name, fill, render_value,
}
use phoenix_channels_python.Diagnostics.Secrets.{
  diagnostic_secrets, key_or_none, carries, diagnostic_secrets-any,
}
use phoenix_channels_python.Supervisor.{
  truncate_close_reason, truncate_close_reason-Cut, max_close_reason_bytes,
}

-- Texts without capitals, and no text but the empty one blank.
abbrev lower_case : Strings
lower_case = record {
  casefold = λ t. t;
  is_blank = λ t. text_eq t [];
  casefold-header = λ h. refl;
  casefold-parameters = (refl, refl, refl);
}

abbrev headers : List (Text × Text)
headers = (codes "x-api-key", codes "k") ∷ (codes "accept", codes "a") ∷ []

abbrev normal_headers : List (Text × Text)
normal_headers = (codes "accept", codes "a") ∷ (codes "x-api-key", codes "k") ∷ []

headers_pass : normalize_headers lower_case headers ≡ ok normal_headers
unfolding normalize_headers normalize_header credentials text_eq header_text without
headers_pass = refl

normalize_headers-Normal_example :
    Normal lower_case api_key headers normal_headers
    × Normal lower_case token headers normal_headers
normalize_headers-Normal_example = normalize_headers-Normal lower_case headers headers_pass

abbrev query : List (Text × Text)
query = (codes "vsn", codes "9") ∷ (codes "token", codes "t") ∷ []

abbrev urls : Queries
urls = record {
  connect =
      (codes "token", codes "t") ∷ (codes "api_key", codes "k") ∷ (codes "vsn", codes "2.0.0") ∷ [];
  redacted =
      (codes "token", codes "***")
      ∷ (codes "api_key", codes "***")
      ∷ (codes "vsn", codes "2.0.0")
      ∷ [];
}

urls_built :
    build_channel_socket_urls lower_case query (some (codes "k")) (codes "2.0.0") none ≡ ok urls
unfolding build_channel_socket_urls with_auth redact is_parameter text_eq is_credential
urls_built = refl

build_channel_socket_urls-redacted_example :
    values_of lower_case token_parameter urls.redacted
    ≡ shown lower_case token_parameter (values_of lower_case token_parameter urls.connect)
build_channel_socket_urls-redacted_example =
    build_channel_socket_urls-redacted lower_case query (some (codes "k")) (codes "2.0.0") none
      token_parameter urls_built

going : truncate_close_reason (codes "going") ≡ ok (codes "going")
unfolding truncate_close_reason Utf8.encode Utf8.char_bytes
going = refl

truncate_close_reason-Cut_example : Cut (codes "going") max_close_reason_bytes (codes "going")
truncate_close_reason-Cut_example = truncate_close_reason-Cut (codes "going") going

diagnostic_secrets-any_example :
    any (text_eq (codes "k")) (diagnostic_secrets lower_case query none normal_headers) ≡ (
      any (text_eq (codes "k")) (key_or_none none)
      || any (carries lower_case (codes "k")) (query ++ normal_headers))
diagnostic_secrets-any_example =
    diagnostic_secrets-any lower_case query none normal_headers (codes "k")

-- A library that finds the placeholder of one message.
abbrev logging : Logging
logging = record {
  pieces = λ message. between (codes "sent ") ∷ placeholder ∷ [];
  state_names = codes "OPEN" ∷ [];
}

render_message-hide_example :
    render_message logging (codes "sent %s") (arguments (other 0 ∷ []))
    ≡ render_message logging (codes "sent %s") (arguments (string (codes "hello") ∷ []))
unfolding hide text_eq
render_message-hide_example =
    render_message-hide logging (codes "sent %s") (string (codes "hello") ∷ [])

-- What is logged then.
logged :
    render_message logging
      (codes "sent %s")
      (arguments (string (codes "hello") ∷ code_defined (codes "True") ∷ []))
    ≡ codes "sent <omitted>"
unfolding render_message state_name fill render_value text_eq
logged = refl
