-- ===== src/Text/Utf8/RoundTrip.antt =====
-- Decoding undoes encoding.
use phoenix_channels_python.Base.{
  ℕ, ◌≡◌, refl, true, inl, inr, List, [], ◌∷◌, ◌++◌, append-nil, append_assoc, arith, Bool-cases,
  ok, >>=-eq-ok, some,
}
use phoenix_channels_python.Text.Utf8.{
  is_scalar, char_bytes, encode, idle, emit, decode_from, decode,
}

pub decode_from-char_bytes :
    (c : ℕ) (bs : List ℕ)
    → is_scalar c ≡ true
    → decode_from idle (char_bytes c ++ bs) ≡ emit (some c) (decode_from idle bs)
unfolding decode_from char_bytes
decode_from-char_bytes c bs h = ground arith

pub encode-cons :
    (c : ℕ) (s : List ℕ) {bs : List ℕ}
    → encode (c ∷ s) ≡ ok bs
    → (es : List ℕ) × (is_scalar c ≡ true) × (encode s ≡ ok es) × (bs ≡ char_bytes c ++ es)
unfolding encode
encode-cons c s {bs} h = elim (Bool-cases (is_scalar c)) [
  | inr e ↦ absurd (ground arith)
  | inl e ↦
      let (es, p, q) = >>=-eq-ok (encode s) (λ es. ok (char_bytes c ++ es)) {b = bs} (rw e at h) in
      (es, e, p, ground arith)
]

-- Decoding the encoding of a text gives the text, whatever follows it.
pub decode_from-encode :
    (s bs rest : List ℕ) {t : List ℕ}
    → encode s ≡ ok bs
    → decode_from idle rest ≡ ok t
    → decode_from idle (bs ++ rest) ≡ ok (s ++ t)
decode_from-encode [] bs rest h r = unfold encode in ground arith
decode_from-encode (c ∷ s) bs rest {t} h r =
    let (es, scalar, he, e) = encode-cons c s h in
    rw (
      e,
      append_assoc (char_bytes c) es rest,
      decode_from-char_bytes c (es ++ rest) scalar,
      decode_from-encode s es rest {t = t} he r,
    )

pub decode-encode : (s bs : List ℕ) → encode s ≡ ok bs → decode bs ≡ ok s
unfolding decode decode_from
decode-encode s bs h =
    rw (← append-nil bs) (rw (← append-nil s) (decode_from-encode s bs [] {t = []} h refl))
