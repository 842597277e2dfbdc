-- ===== src/Runtime/Transition/Accept.antt =====
-- The accepting transition, and what both kinds of transition keep.
use phoenix_channels_python.Base.{
  ℕ, ◌≡◌, refl, inl, inr, Bool, true, ◌||◌, Option, none, arith, ==-self, Bool-cases, Exc,
}
use phoenix_channels_python.Futures.{result, settle, settled, settle-Keeps}
use phoenix_channels_python.Topic.{ChannelCause, accepted, is_left}
use phoenix_channels_python.Runtime.{Client}
use phoenix_channels_python.Runtime.Pushes.{KnownRefs-nil, KeepsPushes-same, KeepsPushes-done}
use phoenix_channels_python.Runtime.Invariant.{
  TopicOk, Inv, From, Touches, Touches-From, settle-Fresh,
}
use phoenix_channels_python.Runtime.Transition.{
  accept_channel, lose_channel, transition_channel, mark_lost, lost_state,
}
use phoenix_channels_python.Runtime.Transition.Parts.{set_topic-Touches}
use phoenix_channels_python.Runtime.Transition.Life.{
  topic-lose_channel, lose_channel-done, lose_channel-TopicOk, lose_channel-Touches,
}

-- A join that may still succeed, or has.
abbrev pub MayAccept : Client → ℕ → Type 0
MayAccept c k = settled (c.futures (c.topics k).current_join_ready) (result none) ≡ result none

module _ (c : Client) (k : ℕ) (inv : Inv c) where
  abbrev closed_already : Bool
  closed_already = is_left (c.topics k).state || (c.topics k).leave_requested

  pub accept_channel-Touches : Touches c k (accept_channel c k)
  unfolding accept_channel
  accept_channel-Touches = elim (Bool-cases closed_already) [
    | inl e ↦ rw e (set_topic-Touches c k _ inv.fresh)
    | inr e ↦ rw e (record {
      keeps = settle-Keeps c.futures _ (result none);
      grows = omega arith;
      refs_grow = omega arith;
      still_fresh =
          settle-Fresh c.futures c.next_future _ (result none) (inv.topic k).known_join inv.fresh;
      others = λ j ne. rw ne;
    })
  ]

  accept_channel-TopicOk :
      MayAccept c k → let c' = accept_channel c k in TopicOk c'.futures c'.next_future (c'.topics k)
  unfolding accept_channel settle
  accept_channel-TopicOk may = elim (Bool-cases closed_already) [
    | inl e ↦
        rw (e, ==-self k)
          (record {
            requested = (inv.topic k).requested;
            lived = (inv.topic k).lived;
            ready = (inv.topic k).ready;
            no_pushes = (inv.topic k).no_pushes;
            known_join = (inv.topic k).known_join;
            known_leave = (inv.topic k).known_leave;
            known_pushes = (inv.topic k).known_pushes;
          })
    | inr e ↦
        rw (e, ==-self k)
          (record {
            requested = ground arith;
            lived = λ j. refl;
            ready = λ j. rw ==-self may;
            no_pushes = λ j. cc;
            known_join = (inv.topic k).known_join;
            known_leave = (inv.topic k).known_leave;
            known_pushes = (inv.topic k).known_pushes;
          })
  ]

module _ {o : Client} (c : Client) (k : ℕ) (f : From o c) where
  established_kept-lose :
      (cause : ChannelCause) (e : Exc)
      → ((lose_channel c k cause e).topics k).established ≡ (c.topics k).established
  established_kept-lose cause e =
      rw (topic-lose_channel c k cause e f.inv) (unfold mark_lost in ground arith)

  left_kept-lose :
      (cause : ChannelCause) (e : Exc)
      → is_left (c.topics k).state ≡ true
      → is_left ((lose_channel c k cause e).topics k).state ≡ true
  left_kept-lose cause e h =
      rw (topic-lose_channel c k cause e f.inv)
        (unfold mark_lost lost_state in ground (arith, (f.topic k).requested))

  left_kept-accept :
      is_left (c.topics k).state ≡ true → is_left ((accept_channel c k).topics k).state ≡ true
  unfolding accept_channel
  left_kept-accept h = ground arith

  established_kept-accept :
      (c.topics k).established ≡ true → ((accept_channel c k).topics k).established ≡ true
  unfolding accept_channel
  established_kept-accept h = ground arith

  pushes-accept : ((accept_channel c k).topics k).pending_pushes ≡ (c.topics k).pending_pushes
  unfolding accept_channel
  pushes-accept = elim (Bool-cases (closed_already c k f.inv)) [
    | inl e ↦ rw (e, ==-self k) refl
    | inr e ↦ rw (e, ==-self k) refl
  ]

  refs-accept : (accept_channel c k).ref_counter ≡ c.ref_counter
  unfolding accept_channel
  refs-accept = elim (Bool-cases (closed_already c k f.inv)) [
    | inl e ↦ rw e refl
    | inr e ↦ rw e refl
  ]

  -- Every transition keeps what a step guarantees; an accepting one wants a join that may succeed.
  pub transition_channel-From :
      (cause : ChannelCause) (error : Option Exc)
      → (cause ≡ accepted → MayAccept c k)
      → From o (transition_channel c k cause error)
  unfolding transition_channel
  transition_channel-From accepted error may =
      Touches-From f (accept_channel-Touches c k f.inv)
        (accept_channel-TopicOk c k f.inv (may refl)) (rw (pushes-accept, refs-accept) (f.refs k))
        (KeepsPushes-same (accept_channel c k).futures pushes-accept) left_kept-accept
        established_kept-accept
  transition_channel-From cause error may =
      Touches-From f (lose_channel-Touches c k cause _ f.inv)
        (lose_channel-TopicOk c k cause _ f.inv)
        (rw (lose_channel-done c k cause _ f.inv).3 (KnownRefs-nil _))
        (rw (lose_channel-done c k cause _ f.inv).3
          (KeepsPushes-done _ _ (lose_channel-done c k cause _ f.inv).1))
        (left_kept-lose cause _) (λ h. rw (established_kept-lose cause _) h)
