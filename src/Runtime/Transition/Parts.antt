-- ===== src/Runtime/Transition/Parts.antt =====
-- What each part of a loss does to its channel, to the others and to the futures.
use phoenix_channels_python.Base.{
  ℕ, ◌+◌, ◌≤◌, ◌<◌, ◌≡◌, refl, inl, inr, true, false, arith, ◌==◌, Bool-cases, Exc, All,
}
use phoenix_channels_python.Futures.{
  Store, pending, exception, is_done, has_result, settle, update, Keeps, Keeps-refl, Keeps-trans,
  settle-Keeps, fail_all-Keeps,
}
use phoenix_channels_python.Topic.{Topic, ChannelCause, values, is_left, is_joined}
use phoenix_channels_python.Runtime.{Client, set_topic}
use phoenix_channels_python.Runtime.Invariant.{
  was_joined, TopicOk, Fresh, Touches, settle-Fresh, fail_all-Fresh,
}
use phoenix_channels_python.Runtime.Transition.{
  fail_current_join, lost_state, mark_lost, fail_pushes,
}

-- A change of one channel's fields touches nothing else.
pub set_topic-Touches :
    (c : Client) (k : ℕ) (t : Topic) → Fresh c.futures c.next_future → Touches c k (set_topic c k t)
set_topic-Touches c k t f = record {
  keeps = Keeps-refl c.futures;
  grows = omega arith;
  refs_grow = omega arith;
  still_fresh = f;
  others = λ j ne. rw ne;
}

pub create-Keeps : (s : Store) (n : ℕ) → Fresh s n → Keeps s (update s n pending)
create-Keeps s n f = record {
  at = λ j d. elim (Bool-cases (j == n)) [
    | inl e ↦ let le : n ≤ j = ground arith in absurd (ground (arith, f.at j le))
    | inr e ↦ rw e
  ];
}

pub create-Fresh : (s : Store) (n : ℕ) → Fresh s n → Fresh (update s n pending) (n + 1)
create-Fresh s n f = record { at = λ j le. ground (arith, f.at j) }

pub fail_current_join-Touches :
    (c : Client) (k : ℕ) (e : Exc)
    → (c.topics k).current_join_ready < c.next_future
    → Fresh c.futures c.next_future
    → Touches c k (fail_current_join c k e)
unfolding fail_current_join
fail_current_join-Touches c k e lt f =
    elim (Bool-cases (is_done (c.futures (c.topics k).current_join_ready))) [
      | inl d ↦ rw d (record {
        keeps =
            Keeps-trans (create-Keeps c.futures c.next_future f)
              (settle-Keeps _ c.next_future (exception e));
        grows = omega arith;
        refs_grow = omega arith;
        still_fresh =
            settle-Fresh _ (c.next_future + 1) c.next_future (exception e) (omega arith)
              (create-Fresh c.futures c.next_future f);
        others = λ j ne. rw ne;
      })
      | inr d ↦ rw d (record {
        keeps = settle-Keeps c.futures _ (exception e);
        grows = omega arith;
        refs_grow = omega arith;
        still_fresh = settle-Fresh c.futures c.next_future _ (exception e) lt f;
        others = λ j ne. refl;
      })
    ]

-- What `_fail_current_join` leaves of the channel: perhaps a new join future, which is known.
pub record FailedJoin (c c' : Client) (k : ℕ) : Type 0 where
  pub future : ℕ
  pub topic : c'.topics k ≡ record (c.topics k) { current_join_ready = future }
  pub known : future < c'.next_future
  pub done : is_done (c'.futures future) ≡ true
  pub no_result : has_result (c'.futures future) ≡ false
  pub old_done : is_done (c'.futures (c.topics k).current_join_ready) ≡ true

pub fail_current_join-FailedJoin :
    (c : Client) (k : ℕ) (e : Exc)
    → (c.topics k).current_join_ready < c.next_future
    → FailedJoin c (fail_current_join c k e) k
unfolding fail_current_join settle
fail_current_join-FailedJoin c k e lt =
    elim (Bool-cases (is_done (c.futures (c.topics k).current_join_ready))) [
      | inl d ↦ rw d (record {
        future = c.next_future;
        topic = ground arith;
        known = omega arith;
        done = ground arith;
        no_result = ground arith;
        old_done = ground arith;
      })
      | inr d ↦ rw d (record {
        future = (c.topics k).current_join_ready;
        topic = refl;
        known = lt;
        done = ground arith;
        no_result = ground arith;
        old_done = ground arith;
      })
    ]

pub mark_lost-Touches :
    (c : Client) (k : ℕ) (cause : ChannelCause)
    → Fresh c.futures c.next_future
    → Touches c k (mark_lost c k cause)
unfolding mark_lost
mark_lost-Touches c k cause f = set_topic-Touches c k _ f

pub mark_lost-TopicOk :
    (c : Client) (k : ℕ) (cause : ChannelCause)
    → TopicOk c.futures c.next_future (c.topics k)
    → let t = (mark_lost c k cause).topics k in
      (t.leave_requested ≡ is_left t.state)
      × (was_joined t.state ≡ true → t.established ≡ true)
      × (is_joined t.state ≡ false)
unfolding mark_lost lost_state
mark_lost-TopicOk c k cause ok = ground (arith, ok.requested, ok.lived)

pub fail_pushes-Touches :
    (c : Client) (k : ℕ) (e : Exc)
    → Fresh c.futures c.next_future
    → All (λ f. f < c.next_future) (values (c.topics k).pending_pushes)
    → Touches c k (fail_pushes c k e)
unfolding fail_pushes
fail_pushes-Touches c k e f known = record {
  keeps = fail_all-Keeps c.futures (values (c.topics k).pending_pushes) e;
  grows = omega arith;
  refs_grow = omega arith;
  still_fresh =
      fail_all-Fresh c.futures c.next_future (values (c.topics k).pending_pushes) e known f;
  others = λ j ne. rw ne;
}
