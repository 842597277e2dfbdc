-- ===== src/Diagnostics.antt =====
-- diagnostics.py: what a log record shows of its arguments, and which secrets a connection's logger
-- hides.
pub mod Secrets
use phoenix_channels_python.Base.{
  ℕ, ◌≡◌, refl, inl, inr, Bool, true, false, ◌&&◌, ◌||◌, not, Option, none, some, List, [], ◌∷◌,
  ◌++◌, if◌then◌else◌, any, map, arith, Bool-cases,
}
use phoenix_channels_python.Text.{Text, codes, text_eq, text_eq_iff}
use phoenix_channels_python.Authentication.{
  api_key_parameter, token_parameter, AuthenticationHeader, api_key, token, header_text, Strings,
  credentials, names,
}

-- An argument of a log record: an Enum member or a bool, with its text; a string; any other value, by a
-- number. The message of a websocket's state is logged with arguments that can be hashed.
pub data Argument : Type 0 where
  code_defined string : Text → Argument
  other : ℕ → Argument

-- `record.args`: a tuple, or something else that is not empty, as a dict.
pub data Arguments : Type 0 where
  arguments : List Argument → Arguments
  no_tuple : Arguments

-- `PLACEHOLDER` in a message: a text between two matches, the match `%%`, or another match.
pub data Piece : Type 0 where
  between : Text → Piece
  percent placeholder : Piece

-- What the code takes from libraries: the matches of `PLACEHOLDER`, and `State.__members__`.
pub record Logging : Type 0 where
  pub pieces : Text → List Piece
  pub state_names : List Text

abbrev pub omitted : Text
omitted = codes "<omitted>"

-- `WEBSOCKET_STATE_MESSAGE`, in front of its `%s`
abbrev pub websocket_state : Text
websocket_state = codes "= connection is "

abbrev pub websocket_state_message : Text
websocket_state_message = codes "= connection is %s"

unfoldable pub render_value : Argument → Text
render_value (code_defined text) = text
render_value _ = omitted

-- `next(values, None)`, rendered, and the values that are left.
render_next : List Argument → Text × List Argument
unfolding render_value
render_next [] = (omitted, [])
render_next (v ∷ values) = (render_value v, values)

-- `PLACEHOLDER.sub`
unfoldable pub fill : List Piece → List Argument → Text
unfolding render_next
fill [] values = []
fill (between text ∷ pieces) values = text ++ fill pieces values
fill (percent ∷ pieces) values = codes "%" ++ fill pieces values
fill (placeholder ∷ pieces) values =
    let (text, rest) = render_next values in text ++ fill pieces rest

module _ (library : Logging) where
  -- `args[0]`, if it is in `State.__members__`
  unfoldable pub state_name : List Argument → Option Text
  state_name (string text ∷ values) =
      if any (text_eq text) library.state_names then some text else none
  state_name _ = none

  render_state : Text → Option Text → List Argument → Text
  render_state message none values = fill (library.pieces message) values
  render_state message (some name) values =
      if text_eq message websocket_state_message
      then websocket_state ++ name
      else fill (library.pieces message) values

  -- `render_message`, of `str(record.msg)` and `record.args`.
  unfoldable pub render_message : Text → Arguments → Text
  unfolding render_state
  render_message message (arguments []) = message
  render_message message (arguments (v ∷ values)) =
      render_state message (state_name (v ∷ values)) (v ∷ values)
  render_message message no_tuple = fill (library.pieces message) []

  -- An argument without what a log must not show.
  unfoldable pub hide : Argument → Argument
  hide (code_defined text) = code_defined text
  hide (string text) = if any (text_eq text) library.state_names then string text else other 0
  hide (other n) = other 0

  render_value-hide : (v : Argument) → render_value (hide v) ≡ render_value v
  unfolding hide render_value
  render_value-hide (code_defined text) = refl
  render_value-hide (string text) = ground arith
  render_value-hide (other n) = refl

  fill-hide :
      (pieces : List Piece) (values : List Argument)
      → fill pieces (map hide values) ≡ fill pieces values
  unfolding fill render_next
  fill-hide [] values = refl
  fill-hide (between text ∷ pieces) values = rw (fill-hide pieces values) refl
  fill-hide (percent ∷ pieces) values = rw (fill-hide pieces values) refl
  fill-hide (placeholder ∷ pieces) [] = rw (fill-hide pieces []) refl
  fill-hide (placeholder ∷ pieces) (v ∷ values) =
      rw (render_value-hide v, fill-hide pieces values) refl

  state_name-hide : (values : List Argument) → state_name (map hide values) ≡ state_name values
  unfolding state_name hide
  state_name-hide [] = refl
  state_name-hide (code_defined text ∷ values) = refl
  state_name-hide (string text ∷ values) =
      elim (Bool-cases (any (text_eq text) library.state_names)) [
        | inl e ↦ rw e (rw e refl)
        | inr e ↦ rw e refl
      ]
  state_name-hide (other n ∷ values) = refl

  render_state-hide :
      (message : Text) (name : Option Text) (values : List Argument)
      → render_state message name (map hide values) ≡ render_state message name values
  unfolding render_state
  render_state-hide message none values = fill-hide (library.pieces message) values
  render_state-hide message (some name) values = rw (fill-hide (library.pieces message) values) refl

  -- A message that is logged shows nothing of its arguments but its Enum members and booleans, and
  -- the name of a websocket's state: it is the same when every other argument is replaced by one
  -- fixed value.
  pub render_message-hide :
      (message : Text) (values : List Argument)
      → render_message message (arguments (map hide values))
        ≡ render_message message (arguments values)
  unfolding render_message
  render_message-hide message [] = refl
  render_message-hide message (v ∷ values) =
      rw (state_name-hide (v ∷ values))
        (render_state-hide message (state_name (v ∷ values)) (v ∷ values))
