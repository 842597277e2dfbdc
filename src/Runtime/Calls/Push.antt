-- ===== src/Runtime/Calls/Push.antt =====
-- A push and its reply.
use phoenix_channels_python.Base.{
  ℕ, ◌+◌, ◌≡◌, ◌≢◌, refl, true, false, Option, none, some, [], ◌∷◌, arith, ==-self, ok, >>=-eq-ok,
}
use phoenix_channels_python.Text.{Text, text_eq_refl, is_empty}
use phoenix_channels_python.Text.Decimal.{decimal, decimal-ne-nil}
use phoenix_channels_python.Messages.{ChannelEvent, Payload, Value, Message}
use phoenix_channels_python.Futures.{settle, pending}
use phoenix_channels_python.Topic.{lookup, lookup-insert, lookup-remove}
use phoenix_channels_python.Runtime.{Client, generate_ref, create_future}
use phoenix_channels_python.Runtime.Control.{
  push_outcome, pending_push, ref_or_empty, resolve_push_reply,
}
use phoenix_channels_python.Runtime.Calls.{may_push, Pushed, register_push, start_push}

pub is_empty-ne : (s : Text) → s ≢ [] → is_empty s ≡ false
is_empty-ne [] h = absurd (h refl)
is_empty-ne (c ∷ s) h = refl

-- What a push that waits looks like.
pub record Waiting (c : Client) (k outcome : ℕ) (ref : Text) : Type 0 where
  pub named : is_empty ref ≡ false
  pub listed : lookup ref (c.topics k).pending_pushes ≡ some outcome
  pub open_ : c.futures outcome ≡ pending

register_push-Waiting :
    (c : Client) (k : ℕ) (event : ChannelEvent) (payload : Payload)
    → let p = register_push c k event payload in
      Waiting p.client k p.outcome (decimal (c.ref_counter + 1))
unfolding register_push generate_ref create_future
register_push-Waiting c k event payload =
    let r = decimal (c.ref_counter + 1) in
    record {
      named = is_empty-ne r (decimal-ne-nil (c.ref_counter + 1));
      listed =
          rw
            (==-self k, lookup-insert r r c.next_future (c.topics k).pending_pushes, text_eq_refl r)
            refl;
      open_ = rw (==-self c.next_future) refl;
    }

pub answered :
    (c : Client) (k outcome : ℕ) (ref : Text) (m : Message) (status : Option Text)
    → Waiting c k outcome ref
    → m.ref ≡ some ref
    → let d = resolve_push_reply c k m status in
      (d.0 ≡ true)
      × (d.1.futures outcome ≡ push_outcome status m)
      × (lookup ref (d.1.topics k).pending_pushes ≡ none)
unfolding settle resolve_push_reply
answered c k outcome ref m status w r =
    let found : pending_push (c.topics k) m.ref ≡ some outcome =
      unfold pending_push in ground (arith, r, w.named, w.listed) in
    let own_ref : ref_or_empty m.ref ≡ ref = rw r refl in
    rw (found, resolve_push_reply)
      (
        refl,
        rw (==-self outcome, w.open_) refl,
        rw (==-self k, own_ref, lookup-remove ref ref (c.topics k).pending_pushes, text_eq_refl ref)
            refl,
      )

pub start_push-registered :
    (c : Client) (k : ℕ) (event : ChannelEvent) (value : Value) (timeout : Option ℕ) {p : Pushed}
    → start_push c k event value timeout ≡ ok p
    → (payload : Payload) × (p ≡ register_push c k event payload)
unfolding start_push
start_push-registered c k event value timeout {p} h =
    let (payload, a, b) =
      >>=-eq-ok (may_push c k event value timeout) (λ x. ok (register_push c k event x)) {b = p}
        h in
    (payload, ground arith)

pub start_push-lookup :
    (c : Client) (k : ℕ) (event : ChannelEvent) (value : Value) (timeout : Option ℕ) {p : Pushed}
    → start_push c k event value timeout ≡ ok p
    → lookup (decimal (c.ref_counter + 1)) (p.client.topics k).pending_pushes ≡ some p.outcome
start_push-lookup c k event value timeout h =
    let (payload, e) = start_push-registered c k event value timeout h in
    rw e (register_push-Waiting c k event payload).listed
