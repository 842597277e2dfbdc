-- ===== src/Examples/Services.antt =====
-- A small library of services: it writes and reads the JSON of a message without refs and with an
-- empty payload.
use phoenix_channels_python.Base.{
  ◌≡◌, refl, Option, none, some, [], ◌∷◌, ◌++◌, arith, Result, ok, err, type_error, bad_ref, length,
  take, drop, take-append, drop-append,
}
use phoenix_channels_python.Text.{Text}
use phoenix_channels_python.Json.{Json, null, text, number, array, object, cons, nil, end, Library}

abbrev frame_json : Text → Text → Json
frame_json topic event =
    array (cons null (cons null (cons (text topic) (cons (text event) (cons (object end) nil)))))

abbrev dumps : Json → Option Text
dumps (array (cons null (cons null (cons (text t) (cons (text e) (cons (object end) nil)))))) =
    some (length t ∷ t ++ e)
dumps _ = none

abbrev loads : Text → Option Json
loads [] = none
loads (n ∷ s) = some (frame_json (take n s) (drop n s))

abbrev coerce_ref : Json → Result (Option Text)
coerce_ref null = ok none
coerce_ref (text t) = ok (some t)
coerce_ref (number t) = ok (some t)
coerce_ref _ = err (type_error bad_ref)

pub loads-dumps : (j : Json) (t : Text) → dumps j ≡ some t → loads t ≡ some j
loads-dumps (array (cons null (cons null (cons (text t) (cons (text e) (cons (object end) nil))))))
      s h =
    let p : s ≡ length t ∷ t ++ e = ground arith in rw (p, take-append t e, drop-append t e)
loads-dumps _ s h = absurd (ground arith)

abbrev pub services : Library
services = record {
  loads = loads;
  dumps = dumps;
  coerce_ref = coerce_ref;
  loads-dumps = loads-dumps;
  coerce_ref-null = refl;
  coerce_ref-text = λ t. refl;
  coerce_ref-number = λ t. refl;
}
