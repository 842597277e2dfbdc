-- ===== src/Codec/Binary.antt =====
-- Binary frames: what `_encode_binary` writes, `_binary_fields` reads back.
use phoenix_channels_python.Base.{
  ℕ, suc, ◌+◌, ◌≤◌, ◌<◌, ◌≡◌, refl, ap, true, false, not, List, [], ◌∷◌, ◌++◌, map, append_assoc,
  arith, ltb, inl, inr, Bool-cases, Result, ok, err, ◌>>=◌, >>=-eq-ok, length, length-append,
  take-append, drop-append, any, All, value_error, truncated_header, truncated_fields,
  field_too_long, guard, ◌>>◌,
}
use phoenix_channels_python.Text.{Text, Bytes}
use phoenix_channels_python.Text.Utf8
use phoenix_channels_python.Text.Utf8.RoundTrip.{decode-encode}
use phoenix_channels_python.Messages.{Message}
use phoenix_channels_python.Codec.{
  max_header_field_bytes, sum, split_fields, binary_fields, encode_fields, concat, header_texts,
  is_control, encode_binary,
}

encode_fields-cons :
    (t : Text) (ts : List Text) {fs : List Bytes}
    → encode_fields (t ∷ ts) ≡ ok fs
    → (b : Bytes) × (bs : List Bytes) × (Utf8.encode t ≡ ok b)
      × (encode_fields ts ≡ ok bs)
      × (fs ≡ b ∷ bs)
unfolding encode_fields
encode_fields-cons t ts {fs} h =
    let (b, p, q) =
      >>=-eq-ok (Utf8.encode t) (λ b. encode_fields ts >>= λ bs. ok (b ∷ bs)) {b = fs} h in
    let (bs, r, s) = >>=-eq-ok (encode_fields ts) (λ bs. ok (b ∷ bs)) {b = fs} q in
    (b, bs, p, r, ground arith)

pub length-encode_fields :
    (ts : List Text) (fs : List Bytes)
    → encode_fields ts ≡ ok fs
    → length (map length fs) ≡ length ts
length-encode_fields [] fs h = unfold encode_fields in ground arith
length-encode_fields (t ∷ ts) fs h =
    let (b, bs, p, q, e) = encode_fields-cons t ts h in rw e (ap suc (length-encode_fields ts bs q))

pub sum-map-length : (fs : List Bytes) → sum (map length fs) ≡ length (concat fs)
unfolding sum concat
sum-map-length [] = refl
sum-map-length (f ∷ fs) = omega (arith, length-append f (concat fs), sum-map-length fs)

split_fields-encode_fields :
    (ts : List Text) (fs : List Bytes) (p : Bytes)
    → encode_fields ts ≡ ok fs
    → split_fields (map length fs) (concat fs ++ p) ≡ ok (ts, p)
unfolding split_fields concat
split_fields-encode_fields [] fs p h =
    let e : fs ≡ [] = unfold encode_fields in ground arith in rw e
split_fields-encode_fields (t ∷ ts) fs p h =
    let (b, bs, q, r, e) = encode_fields-cons t ts h in
    rw (
      e,
      append_assoc b (concat bs) p,
      take-append b (concat bs ++ p),
      drop-append b (concat bs ++ p),
      decode-encode t b q,
      split_fields-encode_fields ts bs p r,
    )

module _ (kind : ℕ) (sizes : List ℕ) (body : Bytes) where
  header_room : ltb (suc (length (sizes ++ body))) (suc (length sizes)) ≡ false
  header_room = ground (arith, length-append sizes body)

  fields_room :
      sum sizes ≤ length body
      → ltb (suc (length (sizes ++ body))) (suc (length sizes) + sum sizes) ≡ false
  fields_room h = ground (arith, length-append sizes body)

  fields_missing :
      length body < sum sizes
      → ltb (suc (length (sizes ++ body))) (suc (length sizes) + sum sizes) ≡ true
  fields_missing h = ground (arith, length-append sizes body)

  -- A whole header, and enough bytes behind it for its fields.
  pub binary_fields-enough :
      sum sizes ≤ length body
      → binary_fields (kind ∷ (sizes ++ body)) (length sizes) ≡ split_fields sizes body
  unfolding binary_fields
  binary_fields-enough h =
      let e : 1 + length sizes ≡ suc (length sizes) = omega arith in
      rw (e, take-append sizes body, drop-append sizes body, header_room, fields_room h)

  -- A whole header, and too few bytes behind it.
  pub binary_fields-short :
      length body < sum sizes
      → binary_fields (kind ∷ (sizes ++ body)) (length sizes) ≡ err (value_error truncated_fields)
  unfolding binary_fields
  binary_fields-short h =
      let e : 1 + length sizes ≡ suc (length sizes) = omega arith in
      rw (e, take-append sizes body, header_room, fields_missing h)

-- A header that is cut off.
pub binary_fields-cut :
    (frame : Bytes) (count : ℕ)
    → length frame < 1 + count
    → binary_fields frame count ≡ err (value_error truncated_header)
unfolding binary_fields
binary_fields-cut frame count h = ground arith

-- A frame of any kind with these texts in its header.
abbrev pub frame_of : ℕ → List Bytes → Bytes → Bytes
frame_of kind fs p = kind ∷ (map length fs ++ (concat fs ++ p))

pub binary_fields-frame_of :
    (kind : ℕ) (ts : List Text) (fs : List Bytes) (p : Bytes)
    → encode_fields ts ≡ ok fs
    → binary_fields (frame_of kind fs p) (length ts) ≡ ok (ts, p)
binary_fields-frame_of kind ts fs p h = rw (
  ← length-encode_fields ts fs h,
  binary_fields-enough kind (map length fs) (concat fs ++ p)
      (omega (arith, sum-map-length fs, length-append (concat fs) p)),
  split_fields-encode_fields ts fs p h,
)

fits→short :
    (fs : List Bytes)
    → any (λ f. ltb max_header_field_bytes (length f)) fs ≡ false
    → All (λ f. length f ≤ max_header_field_bytes) fs
fits→short [] h = tt
fits→short (f ∷ fs) h = ground (arith, fits→short fs)

-- What a binary push that is accepted looks like.
pub record Encoded (m : Message) (p b : Bytes) : Type 0 where
  pub fields : List Bytes
  pub encoded : encode_fields (header_texts m) ≡ ok fields
  pub no_control : is_control m ≡ false
  pub short : All (λ f. length f ≤ max_header_field_bytes) fields
  pub layout : b ≡ frame_of 0 fields p

pub encode_binary-Encoded : (m : Message) (p b : Bytes) → encode_binary m p ≡ ok b → Encoded m p b
unfolding encode_binary
encode_binary-Encoded m p b h = elim (Bool-cases (is_control m)) [
  | inl e ↦ absurd (ground arith)
  | inr e ↦
      let (fs, q, r) =
        >>=-eq-ok (encode_fields (header_texts m)) (λ fs. rest fs) {b = b} (rw e at h) in
      elim (Bool-cases (any (λ f. ltb max_header_field_bytes (length f)) fs)) [
        | inl g ↦ absurd (ground arith)
        | inr g ↦ record {
          fields = fs;
          encoded = q;
          no_control = e;
          short = fits→short fs g;
          layout = ground arith;
        }
      ]
]
  where
    rest : List Bytes → Result Bytes
    rest fs =
        guard (not (any (λ f. ltb max_header_field_bytes (length f)) fs))
          (value_error field_too_long)
        >> ok (frame_of 0 fs p)

-- The header and the payload of an accepted binary push are read back unchanged.
pub binary_fields-encode_binary :
    (m : Message) (p b : Bytes)
    → encode_binary m p ≡ ok b
    → binary_fields b 4 ≡ ok (header_texts m, p)
unfolding header_texts
binary_fields-encode_binary m p b h =
    let e = encode_binary-Encoded m p b h in
    rw e.layout (binary_fields-frame_of 0 (header_texts m) e.fields p e.encoded)
