-- ===== src/Futures.antt =====
-- asyncio futures as the runtime uses them: a store of futures by their identity. A future that the
-- code creates on its first use is one that is pending until then.
use phoenix_channels_python.Base.{
  ℕ, ◌≡◌, refl, ◌∙◌, Bool, true, false, Option, List, [], ◌∷◌, arith, ◌==◌, if◌then◌else◌, Exc, All,
  Bool-cases, inl, inr, ==_iff,
}
use phoenix_channels_python.Replies.{Reply}

pub data Future : Type 0 where
  pending : Future
  -- The reply of a push, or None.
  result : Option Reply → Future
  exception : Exc → Future
  cancelled_future : Future

abbrev pub Store : Type 0
Store = ℕ → Future

-- `future.done()`
abbrev pub is_done : Future → Bool
is_done pending = false
is_done _ = true

-- Done, not cancelled, and without an exception.
abbrev pub has_result : Future → Bool
has_result (result r) = true
has_result _ = false

abbrev pub update {ℓ} : {A : Type ℓ} → (ℕ → A) → ℕ → A → ℕ → A
update f k a j = if j == k then a else f j

-- Settling a future that is done does nothing: each caller tests `done()` first.
abbrev pub settled : Future → Future → Future
settled pending v = v
settled f v = f

unfoldable pub settle : Store → ℕ → Future → Store
settle s k v = update s k (settled (s k) v)

-- `_set_future_exception` of topic_runtime.py, over the futures of a dict.
unfoldable pub fail_all : Store → List ℕ → Exc → Store
fail_all s [] e = s
fail_all s (k ∷ ks) e = fail_all (settle s k (exception e)) ks e

-- What is done stays as it is.
pub record Keeps (s t : Store) : Type 0 where
  pub at : (k : ℕ) → is_done (s k) ≡ true → t k ≡ s k

pub Keeps-refl : (s : Store) → Keeps s s
Keeps-refl s = record { at = λ k h. refl }

pub Keeps-trans : {s t u : Store} → Keeps s t → Keeps t u → Keeps s u
Keeps-trans {s} {t} {u} h i = record {
  at = λ k d. let e = h.at k d in let d' : is_done (t k) ≡ true = rw e d in i.at k d' ∙ e;
}

settled-done : (f v : Future) → is_done f ≡ true → settled f v ≡ f
settled-done pending v h = cc
settled-done (result r) v h = refl
settled-done (exception e) v h = refl
settled-done cancelled_future v h = refl

pub settle-Keeps : (s : Store) (k : ℕ) (v : Future) → Keeps s (settle s k v)
unfolding settle
settle-Keeps s k v = record {
  at = λ j d. elim (Bool-cases (j == k)) [
    | inl e ↦ let p : j ≡ k = (==_iff j k).0 e in rw e (rw (← p) (settled-done (s j) v d))
    | inr e ↦ rw e
  ];
}

pub fail_all-Keeps : (s : Store) (ks : List ℕ) (e : Exc) → Keeps s (fail_all s ks e)
unfolding fail_all
fail_all-Keeps s [] e = Keeps-refl s
fail_all-Keeps s (k ∷ ks) e =
    Keeps-trans (settle-Keeps s k (exception e)) (fail_all-Keeps (settle s k (exception e)) ks e)

pub settle-done :
    (s : Store) (k : ℕ) (v : Future) → is_done v ≡ true → is_done (settle s k v k) ≡ true
unfolding settle
settle-done s k v h = ground arith

pub Keeps-done : {s t : Store} (k : ℕ) → Keeps s t → is_done (s k) ≡ true → is_done (t k) ≡ true
Keeps-done k h d = rw (h.at k d) d

-- Afterwards all of them are done.
pub fail_all-done :
    (s : Store) (ks : List ℕ) (e : Exc) → All (λ k. is_done (fail_all s ks e k) ≡ true) ks
unfolding fail_all
fail_all-done s [] e = tt
fail_all-done s (k ∷ ks) e = (
  Keeps-done k (fail_all-Keeps (settle s k (exception e)) ks e)
      (settle-done s k (exception e) refl),
  fail_all-done (settle s k (exception e)) ks e,
)
