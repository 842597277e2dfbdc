-- ===== src/Authentication/Normal.antt =====
-- What normalised headers look like.
use phoenix_channels_python.Base.{
  ◌≡◌, refl, ◌∙◌, sym, append-nil, true, false, not, List, [], ◌∷◌, ◌++◌, arith, any, ok, >>=-eq-ok,
  All,
}
use phoenix_channels_python.Text.{Text, text_eq, text_eq_iff, text_eq_refl}
use phoenix_channels_python.Authentication.{
  AuthenticationHeader, api_key, token, header_text, Strings, names, credentials, without,
  normalize_header, normalize_headers,
}

module _ (strings : Strings) where
  credentials-append :
      (h : AuthenticationHeader) (q r : List (Text × Text))
      → credentials strings h (q ++ r) ≡ credentials strings h q ++ credentials strings h r
  unfolding credentials
  credentials-append h [] r = refl
  credentials-append h ((name, value) ∷ q) r = ground (arith, credentials-append h q r)

  credentials-without :
      (h : AuthenticationHeader) (q : List (Text × Text))
      → credentials strings h (without strings h q) ≡ []
  unfolding credentials without
  credentials-without h [] = refl
  credentials-without h ((name, value) ∷ q) = ground (arith, credentials-without h q)

  -- A name is that of one header at most.
  names_apart :
      (h i : AuthenticationHeader) (name : Text)
      → text_eq (header_text h) (header_text i) ≡ false
      → names strings h name ≡ true
      → names strings i name ≡ false
  unfolding names
  names_apart h i name ne e = ground (arith, text_eq_iff (strings.casefold name) (header_text h))

  credentials-without_other :
      (h i : AuthenticationHeader) (q : List (Text × Text))
      → text_eq (header_text h) (header_text i) ≡ false
      → credentials strings i (without strings h q) ≡ credentials strings i q
  unfolding credentials without
  credentials-without_other h i [] ne = refl
  credentials-without_other h i ((name, value) ∷ q) ne =
      ground (arith, credentials-without_other h i q ne, names_apart h i name ne)

  -- A header that has been normalised has one value or none; one value is not blank, and it is every
  -- value that was given.
  pub data Normal (h : AuthenticationHeader) (before after : List (Text × Text)) : Type 0 where
    absent :
        credentials strings h before ≡ [] → credentials strings h after ≡ [] → Normal h before after
    single :
        (value : Text)
        → credentials strings h after ≡ value ∷ []
        → strings.is_blank value ≡ false
        → All (λ v. v ≡ value) (credentials strings h before)
        → Normal h before after

  same_values :
      (value : Text) (vs : List Text)
      → any (λ v. not (text_eq v value)) vs ≡ false
      → All (λ v. v ≡ value) vs
  same_values value [] e = tt
  same_values value (v ∷ vs) e =
      (ground (arith, text_eq_iff v value), same_values value vs (ground arith))

  own_name : (h : AuthenticationHeader) → names strings h (header_text h) ≡ true
  unfolding names
  own_name h = rw (strings.casefold-header h) (text_eq_refl (header_text h))

  -- What one pass makes of the headers: nothing, or the one value behind the others.
  data Pass (h : AuthenticationHeader) (q r : List (Text × Text)) : Type 0 where
    unchanged : credentials strings h q ≡ [] → r ≡ q → Pass h q r
    moved :
        (value : Text)
        → r ≡ without strings h q ++ (header_text h, value) ∷ []
        → strings.is_blank value ≡ false
        → All (λ v. v ≡ value) (credentials strings h q)
        → Pass h q r

  normalize_header-Pass :
      (h : AuthenticationHeader) (q : List (Text × Text)) {r : List (Text × Text)}
      → normalize_header strings h q ≡ ok r
      → Pass h q r
  unfolding normalize_header
  normalize_header-Pass h q {r} e = cases (credentials strings h q) refl
    where
      cases : (vs : List Text) → credentials strings h q ≡ vs → Pass h q r
      cases [] p = unchanged p (ground arith)
      cases (v ∷ vs) p =
          moved v (ground arith) (ground arith) (rw p (refl, same_values v vs (ground arith)))

  Pass-Normal : (h : AuthenticationHeader) {q r : List (Text × Text)} → Pass h q r → Normal h q r
  Pass-Normal h (unchanged empty same) = absent empty (rw same empty)
  Pass-Normal h {q} (moved v e blank all) =
      single v
        (rw
          (
            e,
            credentials-append h (without strings h q) ((header_text h, v) ∷ []),
            credentials-without h q,
          )
          (unfold credentials in rw (own_name h) refl))
        blank all

  Pass-other :
      (h i : AuthenticationHeader) {q r : List (Text × Text)}
      → text_eq (header_text h) (header_text i) ≡ false
      → Pass h q r
      → credentials strings i r ≡ credentials strings i q
  Pass-other h i ne (unchanged empty same) = rw same refl
  Pass-other h i {q} ne (moved v e blank all) =
      rw
        (
          e,
          credentials-append i (without strings h q) ((header_text h, v) ∷ []),
          credentials-without_other h i q ne,
        )
        (unfold credentials in
          rw (names_apart h i (header_text h) ne (own_name h))
            (append-nil (credentials strings i q)))

  -- When the headers are accepted, each of the two authentication headers is normalised: it has no
  -- value before and after, or one value after, which is not blank and equals every value before.
  pub normalize_headers-Normal :
      (q : List (Text × Text)) {r : List (Text × Text)}
      → normalize_headers strings q ≡ ok r
      → Normal api_key q r × Normal token q r
  unfolding normalize_headers
  normalize_headers-Normal q {r} e =
      let (first, p, t) =
        >>=-eq-ok (normalize_header strings api_key q) (normalize_header strings token) {b = r} e in
      let a = normalize_header-Pass api_key q p in
      let b = normalize_header-Pass token first t in
      let apart : text_eq (header_text api_key) (header_text token) ≡ false =
        unfold header_text text_eq in refl in
      let apart' : text_eq (header_text token) (header_text api_key) ≡ false =
        unfold header_text text_eq in refl in
      (
        Normal-after api_key (Pass-other token api_key apart' b) (Pass-Normal api_key a),
        Normal-before token (Pass-other api_key token apart a) (Pass-Normal token b),
      )
    where
      Normal-after :
          (h : AuthenticationHeader) {s t : List (Text × Text)}
          → credentials strings h t ≡ credentials strings h s
          → Normal h q s
          → Normal h q t
      Normal-after h e (absent x y) = absent x (e ∙ y)
      Normal-after h e (single v x y z) = single v (e ∙ x) y z

      Normal-before :
          (h : AuthenticationHeader) {s t : List (Text × Text)}
          → credentials strings h s ≡ credentials strings h q
          → Normal h s t
          → Normal h q t
      Normal-before h e (absent x y) = absent (sym e ∙ x) y
      Normal-before h e (single v x y z) = single v x y (rw e at z)
