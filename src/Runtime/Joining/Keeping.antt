-- ===== src/Runtime/Joining/Keeping.antt =====
-- The joins keep the invariant.
use phoenix_channels_python.Base.{
  ℕ, ◌≡◌, refl, true, false, [], some, arith, ok, Exc, timeout_error,
}
use phoenix_channels_python.Text.{Text}
use phoenix_channels_python.Json.{Library}
use phoenix_channels_python.Messages.{Message, is_event, join, ProtocolVersion}
use phoenix_channels_python.Codec.{Frame}
use phoenix_channels_python.Topic.{is_created, configuration, timeout, values}
use phoenix_channels_python.Runtime.{Client, create_future}
use phoenix_channels_python.Runtime.Pushes.{KnownRefs-nil, KeepsPushes-nil}
use phoenix_channels_python.Runtime.Invariant.{From}
use phoenix_channels_python.Runtime.Transition.Accept.{transition_channel-From}
use phoenix_channels_python.Runtime.Tasks.Keeping.{
  From-same, From-if, From-if-pair, set_core-From, set_topic-From,
}
use phoenix_channels_python.Runtime.Calls.Keeping.{create_future-From}
use phoenix_channels_python.Runtime.Leaving.Keeping.{leave_channel-From}
use phoenix_channels_python.Runtime.Joining.{
  Options, new_topic, channel, note_send, start_operation, begin_operation, configuration_error,
  join_refused, join_failed, finish_failed_join,
}

module _ {o : Client} (c : Client) (k : ℕ) (f : From o c) where
  pub begin_operation-From : (m : Message) → From o (begin_operation c k m)
  unfolding begin_operation
  begin_operation-From m =
      From-if (is_event join m.event) (λ _. set_core-From c k _ refl f) (λ _. f)

  join_refused-From : (e : Exc) → From o (join_refused c k e).1
  unfolding join_refused
  join_refused-From e =
      From-if-pair _ _ _
        (λ _.
          transition_channel-From c k f configuration (some (configuration_error e))
            (λ h. absurd (ground arith)))
        (λ _. f)

  pub join_failed-From : (e : Exc) → From o (join_failed c k e).1
  unfolding join_failed
  join_failed-From timeout_error =
      transition_channel-From c k f timeout _ (λ h. absurd (ground arith))
  join_failed-From e = join_refused-From e

  pub finish_failed_join-From : (e : Exc) → From o (finish_failed_join c k e).1
  unfolding finish_failed_join
  finish_failed_join-From timeout_error = leave_channel-From c k f
  finish_failed_join-From e = leave_channel-From c k f

  note_send-From : (outcome : ℕ) → From o (note_send c k outcome)
  unfolding note_send
  note_send-From outcome = set_core-From c k _ refl f

  pub start_operation-From :
      (lib : Library) (version : ProtocolVersion) (m : Message) (outcome : ℕ) {x : Frame × Client}
      → start_operation lib version c k m outcome ≡ ok x
      → From o x.1
  unfolding start_operation
  start_operation-From lib version m outcome {x} h =
      let e : x.1 ≡ note_send c k outcome = ground arith in rw e (note_send-From outcome)

pub channel-From :
    {o : Client} (c : Client) (name : Text) (options : Options)
    → From o c
    → is_created (c.topics c.next_topic).state ≡ true
    → (c.topics c.next_topic).established ≡ false
    → From o (channel c name options).1
unfolding channel new_topic
channel-From c name options f unborn unborn' =
    let d = (create_future (create_future c).1).1 in
    let g = create_future-From _ (create_future-From c f) in
    let unused : (d.topics c.next_topic).pending_pushes ≡ [] =
      unfold create_future in (f.topic c.next_topic).no_pushes (ground arith) in
    From-same
      (set_topic-From d c.next_topic
        (new_topic name options (create_future c).0 (create_future (create_future c).1).0) g
        (unfold create_future in
          record {
            requested = refl;
            lived = λ h. absurd (ground arith);
            ready = λ h. absurd (ground arith);
            no_pushes = λ h. refl;
            known_join = omega arith;
            known_leave = omega arith;
            known_pushes = unfold values in tt;
          })
        (KnownRefs-nil d.ref_counter) (rw unused (KeepsPushes-nil d.futures))
        (λ h. absurd (unfold create_future in ground arith))
        (λ h. absurd (unfold create_future in ground arith)))
      refl refl refl (omega arith)
