-- ===== src/Runtime/Invariant.antt =====
-- What holds of a client between two steps of its event loop, and how it is shown to be kept.
use phoenix_channels_python.Base.{
  ℕ, ◌≤◌, ◌<◌, ◌≡◌, refl, ◌∙◌, ap, inl, inr, Bool, true, false, none, List, [], ◌∷◌, arith, ◌==◌,
  ==_iff, Bool-cases, Exc, All,
}
use phoenix_channels_python.Text.{Text}
use phoenix_channels_python.Futures.{
  Future, Store, pending, result, exception, is_done, settle, fail_all, Keeps, Keeps-refl,
  Keeps-trans,
}
use phoenix_channels_python.Topic.{
  Topic, ChannelState, joined, rejoining, values, is_left, is_joined,
}
use phoenix_channels_python.Runtime.{Client}
use phoenix_channels_python.Runtime.Pushes.{
  KnownRefs, KnownRefs-mono, KeepsPushes, KeepsPushes-same, KeepsPushes-trans,
}

-- A channel that is or was joined.
abbrev pub was_joined : ChannelState → Bool
was_joined joined = true
was_joined rejoining = true
was_joined _ = false

pub record TopicOk (s : Store) (next : ℕ) (t : Topic) : Type 0 where
  -- A channel is left exactly when a leave was requested.
  pub requested : t.leave_requested ≡ is_left t.state
  pub lived : was_joined t.state ≡ true → t.established ≡ true
  -- A joined channel's join has succeeded, and only a joined channel waits for replies.
  pub ready : is_joined t.state ≡ true → s t.current_join_ready ≡ result none
  pub no_pushes : is_joined t.state ≡ false → t.pending_pushes ≡ []
  pub known_join : t.current_join_ready < next
  pub known_leave : t.unsubscribe_completed < next
  pub known_pushes : All (λ f. f < next) (values t.pending_pushes)

-- No future beyond the last one that was created is settled.
pub record Fresh (s : Store) (next : ℕ) : Type 0 where
  pub at : (j : ℕ) → next ≤ j → s j ≡ pending

pub record Inv (c : Client) : Type 0 where
  pub topic : (k : ℕ) → TopicOk c.futures c.next_future (c.topics k)
  pub fresh : Fresh c.futures c.next_future
  -- The refs of the pushes that wait have been given out.
  pub refs : (k : ℕ) → KnownRefs c.ref_counter (c.topics k).pending_pushes

pub All-mono : (m n : ℕ) (ks : List ℕ) → m ≤ n → All (λ f. f < m) ks → All (λ f. f < n) ks
All-mono m n [] le h = tt
All-mono m n (k ∷ ks) le h = (omega arith, All-mono m n ks le h.1)

pub TopicOk-Keeps :
    {s s' : Store} {n n' : ℕ} {t : Topic} → Keeps s s' → n ≤ n' → TopicOk s n t → TopicOk s' n' t
TopicOk-Keeps {s} {s'} {n} {n'} {t} keeps le ok = record {
  requested = ok.requested;
  lived = ok.lived;
  ready = λ j.
      let done : is_done (s t.current_join_ready) ≡ true = rw (ok.ready j) in
      keeps.at t.current_join_ready done ∙ ok.ready j;
  no_pushes = ok.no_pushes;
  known_join = omega (arith, ok.known_join);
  known_leave = omega (arith, ok.known_leave);
  known_pushes = All-mono n n' (values t.pending_pushes) le ok.known_pushes;
}

pub settle-Fresh : (s : Store) (n k : ℕ) (v : Future) → k < n → Fresh s n → Fresh (settle s k v) n
unfolding settle
settle-Fresh s n k v lt f = record { at = λ j le. ground (arith, f.at j le) }

pub fail_all-Fresh :
    (s : Store) (n : ℕ) (ks : List ℕ) (e : Exc)
    → All (λ k. k < n) ks
    → Fresh s n
    → Fresh (fail_all s ks e) n
unfolding fail_all
fail_all-Fresh s n [] e h f = f
fail_all-Fresh s n (k ∷ ks) e h f =
    fail_all-Fresh (settle s k (exception e)) n ks e h.1 (settle-Fresh s n k (exception e) h.0 f)

-- A step that touches one channel only.
pub record Touches (c : Client) (k : ℕ) (c' : Client) : Type 0 where
  pub keeps : Keeps c.futures c'.futures
  pub grows : c.next_future ≤ c'.next_future
  pub refs_grow : c.ref_counter ≤ c'.ref_counter
  pub still_fresh : Fresh c'.futures c'.next_future
  pub others : (j : ℕ) → (j == k) ≡ false → c'.topics j ≡ c.topics j

pub Touches-trans : {c d e : Client} {k : ℕ} → Touches c k d → Touches d k e → Touches c k e
Touches-trans a b = record {
  keeps = Keeps-trans a.keeps b.keeps;
  grows = omega (arith, a.grows, b.grows);
  refs_grow = omega (arith, a.refs_grow, b.refs_grow);
  still_fresh = b.still_fresh;
  others = λ j ne. b.others j ne ∙ a.others j ne;
}

pub Touches-Inv :
    {c c' : Client} {k : ℕ}
    → Inv c
    → Touches c k c'
    → TopicOk c'.futures c'.next_future (c'.topics k)
    → KnownRefs c'.ref_counter (c'.topics k).pending_pushes
    → Inv c'
Touches-Inv {c} {c'} {k} inv touch ok known = record {
  topic = λ j. elim (Bool-cases (j == k)) [
    | inl e ↦ let p : j ≡ k = (==_iff j k).0 e in rw p ok
    | inr e ↦ rw (touch.others j e) (TopicOk-Keeps touch.keeps touch.grows (inv.topic j))
  ];
  fresh = touch.still_fresh;
  refs = λ j. elim (Bool-cases (j == k)) [
    | inl e ↦ let p : j ≡ k = (==_iff j k).0 e in rw p known
    | inr e ↦
        rw (touch.others j e)
          (KnownRefs-mono c.ref_counter c'.ref_counter touch.refs_grow (inv.refs j))
  ];
}

-- The fields of a channel that the invariant speaks of.
pub record Core : Type 0 where
  pub state : ChannelState
  leave_requested : Bool
  pub established : Bool
  current_join_ready : ℕ
  unsubscribe_completed : ℕ
  pub pending_pushes : List (Text × ℕ)

abbrev pub core : Topic → Core
core t = record {
  state = t.state;
  leave_requested = t.leave_requested;
  established = t.established;
  current_join_ready = t.current_join_ready;
  unsubscribe_completed = t.unsubscribe_completed;
  pending_pushes = t.pending_pushes;
}

-- A change of other fields keeps what holds of a channel.
pub TopicOk-core :
    {s : Store} {n : ℕ} (t t' : Topic) → core t' ≡ core t → TopicOk s n t → TopicOk s n t'
TopicOk-core t t' e ok =
    let st : t'.state ≡ t.state = ap (λ (x : Core). x.state) e in
    let lr : t'.leave_requested ≡ t.leave_requested = ap (λ (x : Core). x.leave_requested) e in
    let es : t'.established ≡ t.established = ap (λ (x : Core). x.established) e in
    let jo : t'.current_join_ready ≡ t.current_join_ready =
      ap (λ (x : Core). x.current_join_ready) e in
    let un : t'.unsubscribe_completed ≡ t.unsubscribe_completed =
      ap (λ (x : Core). x.unsubscribe_completed) e in
    let pu : t'.pending_pushes ≡ t.pending_pushes = ap (λ (x : Core). x.pending_pushes) e in
    record {
      requested = rw (st, lr) ok.requested;
      lived = rw (st, es) ok.lived;
      ready = rw (st, jo) ok.ready;
      no_pushes = rw (st, pu) ok.no_pushes;
      known_join = rw jo ok.known_join;
      known_leave = rw un ok.known_leave;
      known_pushes = rw pu ok.known_pushes;
    }

-- What a step or a sequence of steps from `o` to `c` guarantees.
pub record From (o c : Client) : Type 0 where
  pub inv : Inv c
  pub open inv use *
  -- A future that is done stays as it is.
  pub keeps : Keeps o.futures c.futures
  -- A push that waits goes on waiting, or its future is done.
  pub waits :
      (j : ℕ) → KeepsPushes c.futures (o.topics j).pending_pushes (c.topics j).pending_pushes
  -- A channel that is left stays left, and one that was joined once remains so marked.
  pub left_stays : (j : ℕ) → is_left (o.topics j).state ≡ true → is_left (c.topics j).state ≡ true
  pub established_stays :
      (j : ℕ) → (o.topics j).established ≡ true → (c.topics j).established ≡ true

pub From-refl : (c : Client) → Inv c → From c c
From-refl c i = record {
  inv = i;
  keeps = Keeps-refl c.futures;
  waits = λ j. KeepsPushes-same c.futures refl;
  left_stays = λ j h. h;
  established_stays = λ j h. h;
}

pub From-trans : {a b c : Client} → From a b → From b c → From a c
From-trans f g = record {
  inv = g.inv;
  keeps = Keeps-trans f.keeps g.keeps;
  waits = λ j. KeepsPushes-trans g.keeps (f.waits j) (g.waits j);
  left_stays = λ j h. g.left_stays j (f.left_stays j h);
  established_stays = λ j h. g.established_stays j (f.established_stays j h);
}

pub Touches-From :
    {o c c' : Client} {k : ℕ}
    → From o c
    → Touches c k c'
    → TopicOk c'.futures c'.next_future (c'.topics k)
    → KnownRefs c'.ref_counter (c'.topics k).pending_pushes
    → KeepsPushes c'.futures (c.topics k).pending_pushes (c'.topics k).pending_pushes
    → (is_left (c.topics k).state ≡ true → is_left (c'.topics k).state ≡ true)
    → ((c.topics k).established ≡ true → (c'.topics k).established ≡ true)
    → From o c'
Touches-From {o} {c} {c'} {k} f touch ok known kept left_kept established_kept = record {
  inv = Touches-Inv f.inv touch ok known;
  keeps = Keeps-trans f.keeps touch.keeps;
  waits = λ j. elim (Bool-cases (j == k)) [
    | inl e ↦
        let p : j ≡ k = (==_iff j k).0 e in rw p (KeepsPushes-trans touch.keeps (f.waits k) kept)
    | inr e ↦
        KeepsPushes-trans touch.keeps (f.waits j)
          (KeepsPushes-same c'.futures (rw (touch.others j e) refl))
  ];
  left_stays = λ j h. elim (Bool-cases (j == k)) [
    | inl e ↦ let p : j ≡ k = (==_iff j k).0 e in rw p (left_kept (rw p at (f.left_stays j h)))
    | inr e ↦ rw (touch.others j e) (f.left_stays j h)
  ];
  established_stays = λ j h. elim (Bool-cases (j == k)) [
    | inl e ↦
        let p : j ≡ k = (==_iff j k).0 e in
        rw p (established_kept (rw p at (f.established_stays j h)))
    | inr e ↦ rw (touch.others j e) (f.established_stays j h)
  ];
}
