-- ===== src/Json.antt =====
-- JSON values as Python holds them, and what the code takes from the `json` module and pydantic.
use phoenix_channels_python.Base.{◌≡◌, Bool, Option, none, some, if◌then◌else◌, Result, ok}
use phoenix_channels_python.Text.{Text, text_eq}

-- A number is carried by the text that `str` gives it. The keys of a dict are distinct, so the
-- first field of a name is the only one.
mutual
  pub data Json : Type 0 where
    null : Json
    boolean : Bool → Json
    number : Text → Json
    text : Text → Json
    array : Items → Json
    object : Fields → Json

  pub data Items : Type 0 where
    nil : Items
    cons : Json → Items → Items

  pub data Fields : Type 0 where
    end : Fields
    field : Text → Json → Fields → Fields

-- d.get(key); a missing key is None.
unfoldable pub get : Text → Fields → Json
get key end = null
get key (field name value rest) = if text_eq name key then value else get key rest

-- Services of code that is not the client's: `json.loads` (`none`: it raised), `json.dumps`
-- (`none`: TypeError, ValueError or RecursionError), and pydantic's check of a field of type `Ref`
-- with `coerce_numbers_to_str`.
pub record Library : Type 0 where
  pub loads : Text → Option Json
  pub dumps : Json → Option Text
  pub coerce_ref : Json → Result (Option Text)
  -- What `dumps` writes, `loads` reads back.
  pub loads-dumps : (j : Json) (t : Text) → dumps j ≡ some t → loads t ≡ some j
  pub coerce_ref-null : coerce_ref null ≡ ok none
  pub coerce_ref-text : (t : Text) → coerce_ref (text t) ≡ ok (some t)
  pub coerce_ref-number : (t : Text) → coerce_ref (number t) ≡ ok (some t)

-- An optional text as a JSON value.
abbrev pub optional : Option Text → Json
optional none = null
optional (some t) = text t

pub coerce_ref-optional : (lib : Library) (r : Option Text) → lib.coerce_ref (optional r) ≡ ok r
coerce_ref-optional lib none = lib.coerce_ref-null
coerce_ref-optional lib (some t) = lib.coerce_ref-text t
