-- ===== src/Runtime/Pushes.antt =====
-- The pushes of a channel that wait: their refs, and what a step may do about them.
use phoenix_channels_python.Base.{
  ℕ, ◌+◌, ◌≤◌, ◌≡◌, sym, ap, ◌∙◌, ◌⊎◌, inl, inr, true, none, some, List, [], ◌∷◌, arith, Bool-cases,
  Option-cases, All,
}
use phoenix_channels_python.Text.{Text, text_eq, text_eq_iff}
use phoenix_channels_python.Text.Decimal.{decimal, decimal-injective}
use phoenix_channels_python.Futures.{Store, is_done, Keeps, Keeps-done}
use phoenix_channels_python.Topic.{lookup, insert, remove, values, lookup-insert, lookup-remove}

-- Every ref that waits is one of the first `n`.
pub record KnownRefs (n : ℕ) (d : List (Text × ℕ)) : Type 0 where
  pub at : (r : Text) (f : ℕ) → lookup r d ≡ some f → (m : ℕ) × (m ≤ n) × (r ≡ decimal m)

pub KnownRefs-mono : {d : List (Text × ℕ)} (m n : ℕ) → m ≤ n → KnownRefs m d → KnownRefs n d
KnownRefs-mono m n le known = record {
  at = λ r f h. let (i, small, e) = known.at r f h in (i, omega arith, e);
}

pub KnownRefs-nil : (n : ℕ) → KnownRefs n []
KnownRefs-nil n = record { at = λ r f h. absurd (unfold lookup in ground arith) }

-- Every push of the first list waits in the second one, or its future is done.
pub record KeepsPushes (s : Store) (d e : List (Text × ℕ)) : Type 0 where
  pub at : (r : Text) (f : ℕ) → lookup r d ≡ some f → (is_done (s f) ≡ true) ⊎ (lookup r e ≡ some f)

pub KeepsPushes-same : (s : Store) {d e : List (Text × ℕ)} → e ≡ d → KeepsPushes s d e
KeepsPushes-same s p = record { at = λ r f h. inr (rw p h) }

pub KeepsPushes-trans :
    {s t : Store} {d e g : List (Text × ℕ)}
    → Keeps s t
    → KeepsPushes s d e
    → KeepsPushes t e g
    → KeepsPushes t d g
KeepsPushes-trans keeps a b = record {
  at = λ r f h. elim (a.at r f h) [
    | inl done ↦ inl (Keeps-done f keeps done)
    | inr waits ↦ b.at r f waits
  ];
}

pub KeepsPushes-nil : (s : Store) {e : List (Text × ℕ)} → KeepsPushes s [] e
KeepsPushes-nil s = record { at = λ r f h. absurd (unfold lookup in ground arith) }

pub lookup-All {ℓ} :
    (P : ℕ → Type ℓ) (r : Text) (d : List (Text × ℕ)) {f : ℕ}
    → All P (values d)
    → lookup r d ≡ some f
    → P f
unfolding lookup values
lookup-All P r [] h e = absurd (ground arith)
lookup-All P r ((j, v) ∷ d) {f} h e = elim (Bool-cases (text_eq j r)) [
  | inl t ↦ let q : v ≡ f = ground arith in rw q at h.0
  | inr t ↦ lookup-All P r d h.1 (rw t at e)
]

-- Pushes that are all done may be dropped.
pub KeepsPushes-done :
    (s : Store) (d : List (Text × ℕ))
    → All (λ f. is_done (s f) ≡ true) (values d)
    → KeepsPushes s d []
KeepsPushes-done s d h = record {
  at = λ r f e. inl (lookup-All (λ g. is_done (s g) ≡ true) r d h e);
}

-- A push that is done may be taken off the list.
pub KeepsPushes-remove :
    (s : Store) (d : List (Text × ℕ)) (r : Text) (f : ℕ)
    → lookup r d ≡ some f
    → is_done (s f) ≡ true
    → KeepsPushes s d (remove r d)
KeepsPushes-remove s d r f here done = record {
  at = λ q g h. elim (Bool-cases (text_eq r q)) [
    | inl e ↦
        let p : r ≡ q = (text_eq_iff r q).0 e in
        let same : some f ≡ some g = sym here ∙ ap (λ x. lookup x d) p ∙ h in inl (ground arith)
    | inr e ↦ inr (lookup-remove r q d ∙ (rw e h))
  ];
}

pub KnownRefs-remove :
    (n : ℕ) (d : List (Text × ℕ)) (r : Text) → KnownRefs n d → KnownRefs n (remove r d)
KnownRefs-remove n d r known = record {
  at = λ q g h. known.at q g (ground (arith, lookup-remove r q d));
}

-- The next ref does not wait yet.
pub KnownRefs-next :
    (n : ℕ) (d : List (Text × ℕ)) → KnownRefs n d → lookup (decimal (n + 1)) d ≡ none
KnownRefs-next n d known = elim (Option-cases (lookup (decimal (n + 1)) d)) [
  | inl e ↦ e
  | inr (f, e) ↦
      let (m, le, p) = known.at (decimal (n + 1)) f e in
      let clash : n + 1 ≡ m = decimal-injective (n + 1) m p in absurd (omega arith)
]

-- A push with the next ref joins the others.
module _ (n : ℕ) (d : List (Text × ℕ)) (f : ℕ) (known : KnownRefs n d) where
  pub KnownRefs-insert : KnownRefs (n + 1) (insert (decimal (n + 1)) f d)
  KnownRefs-insert = record {
    at = λ q g h. elim (Bool-cases (text_eq (decimal (n + 1)) q)) [
      | inl e ↦ (n + 1, omega arith, sym ((text_eq_iff (decimal (n + 1)) q).0 e))
      | inr e ↦
          let old : lookup q d ≡ some g = ground (arith, lookup-insert (decimal (n + 1)) q f d) in
          let (m, le, p) = known.at q g old in (m, omega arith, p)
    ];
  }

  pub KeepsPushes-insert : (s : Store) → KeepsPushes s d (insert (decimal (n + 1)) f d)
  KeepsPushes-insert s = record {
    at = λ q g h. elim (Bool-cases (text_eq (decimal (n + 1)) q)) [
      | inl e ↦
          let (m, le, p) = known.at q g h in
          let clash : n + 1 ≡ m =
            decimal-injective (n + 1) m ((text_eq_iff (decimal (n + 1)) q).0 e ∙ p) in
          absurd (omega arith)
      | inr e ↦ inr (lookup-insert (decimal (n + 1)) q f d ∙ (rw e h))
    ];
  }
