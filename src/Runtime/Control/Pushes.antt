-- ===== src/Runtime/Control/Pushes.antt =====
-- Settled futures, and the replies of pushes, keep the invariant.
use phoenix_channels_python.Base.{
  Result-cases, ℕ, ◌<◌, ◌≡◌, refl, inl, inr, true, Option, none, some, List, [], ◌∷◌, arith,
  Bool-cases, Option-cases, All,
}
use phoenix_channels_python.Text.{Text, text_eq}
use phoenix_channels_python.Messages.{Message}
use phoenix_channels_python.Futures.{
  settle-done, is_done, Future, settle, Keeps-trans, settle-Keeps,
}
use phoenix_channels_python.Topic.{Topic, lookup, remove, values}
use phoenix_channels_python.Runtime.{Client, set_topic}
use phoenix_channels_python.Runtime.Pushes.{
  KnownRefs-remove, KeepsPushes-same, KeepsPushes-trans, KeepsPushes-remove, lookup-All,
}
use phoenix_channels_python.Runtime.Invariant.{TopicOk, From, settle-Fresh, TopicOk-Keeps}
use phoenix_channels_python.Runtime.Tasks.Keeping.{set_topic-From}
use phoenix_channels_python.Runtime.Control.{
  push_outcome, pending_push, ref_or_empty, resolve_push_reply, reply_from_message,
}

-- Settling a known future keeps the invariant.
pub settle-From :
    {o : Client} (c : Client) (f : ℕ) (v : Future)
    → f < c.next_future
    → From o c
    → From o (record c { futures = settle c.futures f v })
settle-From c f v known inv = record {
  inv = record {
    topic = λ j.
        TopicOk-Keeps {n = c.next_future} (settle-Keeps c.futures f v) (omega arith) (inv.topic j);
    fresh = settle-Fresh c.futures c.next_future f v known inv.fresh;
    refs = inv.refs;
  };
  keeps = Keeps-trans inv.keeps (settle-Keeps c.futures f v);
  waits = λ j.
      KeepsPushes-trans (settle-Keeps c.futures f v) (inv.waits j)
        (KeepsPushes-same (settle c.futures f v) refl);
  left_stays = inv.left_stays;
  established_stays = inv.established_stays;
}

remove-All {ℓ} :
    (P : ℕ → Type ℓ) (r : Text) (d : List (Text × ℕ))
    → All P (values d)
    → All P (values (remove r d))
unfolding remove values
remove-All P r [] h = tt
remove-All P r ((j, v) ∷ d) h = elim (Bool-cases (text_eq j r)) [
  | inl t ↦ rw t (remove-All P r d h.1)
  | inr t ↦ rw t (h.0, remove-All P r d h.1)
]

known_push :
    {o : Client} (c : Client) (k f : ℕ) (r : Option Text)
    → From o c
    → pending_push (c.topics k) r ≡ some f
    → f < c.next_future
unfolding pending_push
known_push c k f none inv e = absurd (ground arith)
known_push c k f (some r) inv e =
    lookup-All (λ g. g < c.next_future) r (c.topics k).pending_pushes (inv.topic k).known_pushes
      (ground arith)

pub remove_push :
    {o : Client} (c : Client) (k : ℕ) (r : Text)
    → From o c
    → TopicOk c.futures c.next_future
        (record (c.topics k) { pending_pushes = remove r (c.topics k).pending_pushes })
remove_push c k r inv = record {
  requested = (inv.topic k).requested;
  lived = (inv.topic k).lived;
  ready = (inv.topic k).ready;
  no_pushes = λ j. rw ((inv.topic k).no_pushes j) (unfold remove in refl);
  known_join = (inv.topic k).known_join;
  known_leave = (inv.topic k).known_leave;
  known_pushes =
      remove-All (λ g. g < c.next_future) r (c.topics k).pending_pushes (inv.topic k).known_pushes;
}

push_outcome-done : (status : Option Text) (m : Message) → is_done (push_outcome status m) ≡ true
unfolding push_outcome
push_outcome-done status m = elim (Result-cases (reply_from_message status m)) [
  | inl (e, p) ↦ rw (p, is_done) refl
  | inr (r, p) ↦ rw (p, is_done) refl
]

lookup-pending_push :
    (t : Topic) (r : Option Text) (f : ℕ)
    → pending_push t r ≡ some f
    → lookup (ref_or_empty r) t.pending_pushes ≡ some f
unfolding pending_push
lookup-pending_push t none f e = absurd (ground arith)
lookup-pending_push t (some r) f e = ground arith

-- The future is settled, and then the push is taken off the list.
resolved-From :
    {o : Client} (c : Client) (k f : ℕ) (m : Message) (status : Option Text)
    → From o c
    → pending_push (c.topics k) m.ref ≡ some f
    → From o (
        set_topic
          (record c { futures = settle c.futures f (push_outcome status m) })
          k
          (record (c.topics k) {
            pending_pushes = remove (ref_or_empty m.ref) (c.topics k).pending_pushes;
          }))
resolved-From c k f m status inv e =
    let d : Client = record c { futures = settle c.futures f (push_outcome status m) } in
    let g = settle-From c f (push_outcome status m) (known_push c k f m.ref inv e) inv in
    let r = ref_or_empty m.ref in
    let done = settle-done c.futures f (push_outcome status m) (push_outcome-done status m) in
    set_topic-From d k _ g (remove_push d k r g)
      (KnownRefs-remove c.ref_counter (c.topics k).pending_pushes r (g.refs k))
      (KeepsPushes-remove d.futures (c.topics k).pending_pushes r f
        (lookup-pending_push (c.topics k) m.ref f e) done)
      (λ h. h) (λ h. h)

pub resolve_push_reply-From :
    {o : Client} (c : Client) (k : ℕ) (m : Message) (status : Option Text)
    → From o c
    → From o (resolve_push_reply c k m status).1
unfolding resolve_push_reply
resolve_push_reply-From c k m status inv = elim (Option-cases (pending_push (c.topics k) m.ref)) [
  | inl e ↦ rw (e, resolve_push_reply) inv
  | inr (f, e) ↦ rw (e, resolve_push_reply) (resolved-From c k f m status inv e)
]
