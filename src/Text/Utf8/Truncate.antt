-- ===== src/Text/Utf8/Truncate.antt =====
-- A cut through an encoded text, decoded with `errors="ignore"`, loses at most the character that
-- the cut goes through.
use phoenix_channels_python.Base.{
  ℕ, zero, suc, ◌+◌, ◌-◌, ◌≤◌, ◌<◌, ◌≡◌, refl, true, ◌⊎◌, inl, inr, List, [], ◌∷◌, ◌++◌, arith,
  Bool-cases, ok, length, length-append, take, take-append_le, ltb, ltb→lt, ap,
}
use phoenix_channels_python.Text.Utf8.{is_scalar, char_bytes, encode, idle, decode_ignore_from}
use phoenix_channels_python.Text.Utf8.RoundTrip.{encode-cons}

decode_ignore_from-char_bytes :
    (c : ℕ) (bs : List ℕ)
    → is_scalar c ≡ true
    → decode_ignore_from idle (char_bytes c ++ bs) ≡ c ∷ decode_ignore_from idle bs
unfolding decode_ignore_from char_bytes
decode_ignore_from-char_bytes c bs h = ground arith

decode_ignore_from-take :
    (c n : ℕ) (bs : List ℕ)
    → is_scalar c ≡ true
    → n < length (char_bytes c)
    → decode_ignore_from idle (take n (char_bytes c ++ bs)) ≡ []
unfolding decode_ignore_from char_bytes
decode_ignore_from-take c zero bs h n = refl
decode_ignore_from-take c (suc zero) bs h n = ground arith
decode_ignore_from-take c (suc (suc zero)) bs h n = ground arith
decode_ignore_from-take c (suc (suc (suc zero))) bs h n = ground arith
decode_ignore_from-take c (suc (suc (suc (suc k)))) bs h n = ground arith

length-char_bytes : (c : ℕ) → length (char_bytes c) ≤ 4
unfolding char_bytes
length-char_bytes c = ground arith

-- What is left of `s` when its encoding is cut to `n` bytes.
pub record Cut (s : List ℕ) (n : ℕ) (t : List ℕ) : Type 0 where
  pub kept : ℕ
  pub bytes : List ℕ
  pub prefix : t ≡ take kept s
  pub encoded : encode t ≡ ok bytes
  pub fits : length bytes ≤ n
  pub tight : (t ≡ s) ⊎ (n < length bytes + 4)

Cut-cons :
    (c n : ℕ) (s t : List ℕ)
    → is_scalar c ≡ true
    → length (char_bytes c) ≤ n
    → Cut s (n - length (char_bytes c)) t
    → Cut (c ∷ s) n (c ∷ t)
unfolding encode
Cut-cons c n s t scalar le cut = record {
  kept = suc cut.kept;
  bytes = char_bytes c ++ cut.bytes;
  prefix = ap (◌∷◌ c) cut.prefix;
  encoded = rw (cut.encoded, scalar);
  fits = omega (arith, length-append (char_bytes c) cut.bytes);
  tight = elim cut.tight [
    | inl e ↦ inl (ap (◌∷◌ c) e)
    | inr lt ↦ inr (omega (arith, length-append (char_bytes c) cut.bytes))
  ];
}

Cut-nil : (c n : ℕ) (s : List ℕ) → n < length (char_bytes c) → Cut (c ∷ s) n []
unfolding encode
Cut-nil c n s h = record {
  kept = 0;
  bytes = [];
  prefix = refl;
  encoded = refl;
  fits = omega arith;
  tight = inr (omega (arith, length-char_bytes c));
}

take-nil {ℓ} : {A : Type ℓ} (n : ℕ) → take {A = A} n [] ≡ []
take-nil zero = refl
take-nil (suc n) = refl

Cut-empty : (n : ℕ) → Cut [] n (decode_ignore_from idle [])
unfolding encode decode_ignore_from
Cut-empty n = record {
  kept = 0;
  bytes = [];
  prefix = refl;
  encoded = refl;
  fits = omega arith;
  tight = inl refl;
}

-- The text that `decode_ignore` makes of the first `n` bytes is a prefix, its encoding fits in `n`
-- bytes, and it is the whole text or leaves fewer than four of the `n` bytes unused.
pub decode_ignore-Cut :
    (s bs : List ℕ) (n : ℕ) → encode s ≡ ok bs → Cut s n (decode_ignore_from idle (take n bs))
decode_ignore-Cut [] bs n h =
    let e : bs ≡ [] = unfold encode in ground arith in rw (e, take-nil {A = ℕ} n) (Cut-empty n)
decode_ignore-Cut (c ∷ s) bs n h =
    let (es, scalar, he, e) = encode-cons c s h in
    elim (Bool-cases (ltb n (length (char_bytes c)))) [
      | inl lt ↦
          rw (e, decode_ignore_from-take c n es scalar (ltb→lt n _ lt))
            (Cut-nil c n s (ltb→lt n _ lt))
      | inr le ↦
          let le' : length (char_bytes c) ≤ n = ground arith in
          rw
            (
              e,
              take-append_le (char_bytes c) es n le',
              decode_ignore_from-char_bytes c (take (n - length (char_bytes c)) es) scalar,
            )
            (Cut-cons c n s _ scalar le' (decode_ignore-Cut s es (n - length (char_bytes c)) he))
    ]
