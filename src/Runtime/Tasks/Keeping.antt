-- ===== src/Runtime/Tasks/Keeping.antt =====
-- Starting tasks and releasing names keep the invariant.
use phoenix_channels_python.Base.{
  ◌≤◌, is_some, ℕ, ◌≡◌, refl, ap, inl, inr, Bool, true, false, Option, none, some, arith, ==-self,
  Bool-cases, if◌then◌else◌, Exc,
}
use phoenix_channels_python.Topic.{Topic, close, leave, is_left}
use phoenix_channels_python.Runtime.{
  Client, Task, recover_channel, lose_topic, leave_and_cleanup, set_topic, create_task,
}
use phoenix_channels_python.Runtime.Pushes.{
  KnownRefs, KnownRefs-mono, KeepsPushes, KeepsPushes-same,
}
use phoenix_channels_python.Runtime.Invariant.{
  TopicOk, TopicOk-core, core, Core, From, Touches-From,
}
use phoenix_channels_python.Runtime.Transition.Parts.{set_topic-Touches}
use phoenix_channels_python.Runtime.Transition.Accept.{transition_channel-From}
use phoenix_channels_python.Runtime.Tasks.{
  recovery_refused, recover_at, may_release, release_reservation, start_channel_recovery,
  leave_first, start_leave_task, loss_error, close_first, start_topic_loss,
}

pub set_topic-From :
    {o : Client} (c : Client) (k : ℕ) (t : Topic)
    → From o c
    → TopicOk c.futures c.next_future t
    → KnownRefs c.ref_counter t.pending_pushes
    → KeepsPushes c.futures (c.topics k).pending_pushes t.pending_pushes
    → (is_left (c.topics k).state ≡ true → is_left t.state ≡ true)
    → ((c.topics k).established ≡ true → t.established ≡ true)
    → From o (set_topic c k t)
set_topic-From c k t inv ok known kept left_kept established_kept =
    Touches-From inv (set_topic-Touches c k t inv.fresh) (rw (==-self k) ok) (rw (==-self k) known)
      (rw (==-self k) kept) (λ h. rw (==-self k) (left_kept h))
      (λ h. rw (==-self k) (established_kept h))

-- A change of fields that the invariant does not speak of.
pub set_core-From :
    {o : Client} (c : Client) (k : ℕ) (t : Topic)
    → core t ≡ core (c.topics k)
    → From o c
    → From o (set_topic c k t)
set_core-From c k t e inv =
    let st : t.state ≡ (c.topics k).state = ap (λ (x : Core). x.state) e in
    let es : t.established ≡ (c.topics k).established = ap (λ (x : Core). x.established) e in
    let pu : t.pending_pushes ≡ (c.topics k).pending_pushes =
      ap (λ (x : Core). x.pending_pushes) e in
    set_topic-From c k t inv (TopicOk-core (c.topics k) t e (inv.topic k)) (rw pu (inv.refs k))
      (KeepsPushes-same c.futures pu) (λ h. rw st h) (λ h. rw es h)

-- The invariant speaks of the topics and the futures only.
pub From-same :
    {o c c' : Client}
    → From o c
    → c'.topics ≡ c.topics
    → c'.futures ≡ c.futures
    → c'.next_future ≡ c.next_future
    → c.ref_counter ≤ c'.ref_counter
    → From o c'
From-same {c = c} {c' = c'} inv t f n le = record {
  inv = record {
    topic = λ k. rw (t, f, n) (inv.topic k);
    fresh = rw (f, n) inv.fresh;
    refs = λ k. rw t (KnownRefs-mono c.ref_counter c'.ref_counter le (inv.refs k));
  };
  keeps = rw f inv.keeps;
  waits = λ j. rw (t, f) (inv.waits j);
  left_stays = λ j h. rw t (inv.left_stays j h);
  established_stays = λ j h. rw t (inv.established_stays j h);
}

-- Both branches of a test keep the invariant.
pub From-if :
    {o : Client} (b : Bool) {x y : Client}
    → (b ≡ true → From o x)
    → (b ≡ false → From o y)
    → From o (if b then x else y)
From-if true f g = f refl
From-if false f g = g refl

-- The same of a test whose branches give something beside the client.
pub From-if-pair {ℓ} :
    {A : Type ℓ} {o : Client} (b : Bool) (x y : A × Client)
    → (b ≡ true → From o x.1)
    → (b ≡ false → From o y.1)
    → From o (if b then x else y).1
From-if-pair true x y f g = f refl
From-if-pair false x y f g = g refl

pub create_task-From :
    {o : Client} (c : Client) (task : Task) → From o c → From o (create_task c task).1
unfolding create_task
create_task-From c task inv = From-same inv refl refl refl (omega arith)

pub release_reservation-From :
    {o : Client} (c : Client) (k : ℕ) → From o c → From o (release_reservation c k)
unfolding release_reservation
release_reservation-From c k inv = elim (Bool-cases (may_release c k)) [
  | inl e ↦ rw e (From-same inv refl refl refl (omega arith))
  | inr e ↦ rw e inv
]

recover_at-From :
    {o : Client} (c : Client) (k g : ℕ) (immediate : Bool)
    → From o c
    → From o (recover_at c k g immediate)
unfolding recover_at create_task
recover_at-From c k g immediate inv = elim (Bool-cases (recovery_refused c k g immediate)) [
  | inl e ↦ rw e inv
  | inr e ↦ rw e (set_core-From _ k _ refl (create_task-From c (recover_channel k g immediate) inv))
]

pub start_channel_recovery-From :
    {o : Client} (c : Client) (k : ℕ) (g : Option ℕ)
    → From o c
    → From o (start_channel_recovery c k g)
start_channel_recovery-From c k none inv =
    unfold start_channel_recovery in recover_at-From c k c.conn_generation false inv
start_channel_recovery-From c k (some g) inv =
    unfold start_channel_recovery in recover_at-From c k g true inv

leave_first-From : {o : Client} (c : Client) (k : ℕ) → From o c → From o (leave_first c k)
unfolding leave_first
leave_first-From c k inv = elim (Bool-cases (is_left (c.topics k).state)) [
  | inl e ↦ rw e inv
  | inr e ↦ rw e (transition_channel-From c k inv leave _ (λ h. absurd (ground arith)))
]

pub start_leave_task-From :
    {o : Client} (c : Client) (k : ℕ) → From o c → From o (start_leave_task c k)
unfolding start_leave_task
start_leave_task-From c k inv = elim (Bool-cases (is_some (c.topics k).leave_task)) [
  | inl e ↦ rw e inv
  | inr e ↦
      let i = leave_first-From c k inv in
      rw e (
        set_core-From _ k _ (unfold create_task in refl)
          (create_task-From (leave_first c k) (leave_and_cleanup k) i))
]

close_first-From :
    {o : Client} (c : Client) (k : ℕ) (e : Exc) → From o c → From o (close_first c k e)
unfolding close_first
close_first-From c k e inv =
    From-if (is_left (c.topics k).state) (λ _. inv)
      (λ _. transition_channel-From c k inv close (some e) (λ h. absurd (ground arith)))

pub start_topic_loss-From :
    {o : Client} (c : Client) (k : ℕ) (e : Exc) → From o c → From o (start_topic_loss c k e)
unfolding start_topic_loss
start_topic_loss-From c k e inv =
    let c' = close_first c k (loss_error c k e) in
    let i = close_first-From c k (loss_error c k e) inv in
    From-if (c'.topics k).established (λ _. create_task-From c' (lose_topic k (loss_error c k e)) i)
      (λ _. start_leave_task-From c' k i)
