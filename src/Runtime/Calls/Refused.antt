-- ===== src/Runtime/Calls/Refused.antt =====
-- A push whose send is refused before its frame is sent, as by a lost connection: `_push_channel` ends
-- in its `finally`.
use phoenix_channels_python.Base.{
  ℕ, ◌+◌, ◌≡◌, refl, ap, ◌∙◌, fun_ext, inl, inr, Option, some, arith, ==-self, Bool-cases, ◌==◌, ok,
}
use phoenix_channels_python.Text.{Text, text_eq_refl}
use phoenix_channels_python.Text.Decimal.{decimal}
use phoenix_channels_python.Messages.{ChannelEvent, Payload, Value}
use phoenix_channels_python.Futures.{update}
use phoenix_channels_python.Topic.{Topic, lookup, lookup-insert, insert, remove, remove-insert}
use phoenix_channels_python.Runtime.{Client, set_topic, create_future, generate_ref}
use phoenix_channels_python.Runtime.Pushes.{KnownRefs-next}
use phoenix_channels_python.Runtime.Invariant.{Inv, From}
use phoenix_channels_python.Runtime.Calls.{
  Pushed, register_push, start_push, is_outcome, finish_push,
}
use phoenix_channels_python.Runtime.Calls.Push.{start_push-registered}
use phoenix_channels_python.Runtime.Calls.Keeping.{generate_ref-From, create_future-From}

-- A second change of a channel takes the place of the first one.
update-update : (g : ℕ → Topic) (k : ℕ) (t u : Topic) → u ≡ g k → update (update g k t) k u ≡ g
update-update g k t u same = fun_ext (λ j. elim (Bool-cases (j == k)) [
  | inl e ↦ let p : j ≡ k = ground arith in rw (p, ==-self k) same
  | inr e ↦ rw e refl
])

finish_push-own :
    (c : Client) (k : ℕ) (t : Topic) (ref : Text) (f : ℕ)
    → c.topics k ≡ t
    → lookup ref t.pending_pushes ≡ some f
    → finish_push c k ref f
      ≡ set_topic c k (record t { pending_pushes = remove ref t.pending_pushes })
unfolding finish_push is_outcome
finish_push-own c k t ref f here own = rw (here, own, ==-self f) refl

module _ (c : Client) (k : ℕ) (event : ChannelEvent) (payload : Payload) (inv : Inv c) where
  register_push-finish_push :
      let p = register_push c k event payload in
      finish_push p.client k (decimal (c.ref_counter + 1)) p.outcome
      ≡ (create_future (generate_ref c).1).1
  unfolding register_push generate_ref create_future
  register_push-finish_push =
      let r = decimal (c.ref_counter + 1) in
      let d = (create_future (generate_ref c).1).1 in
      let pushes = (c.topics k).pending_pushes in
      let t : Topic = record (c.topics k) { pending_pushes = insert r c.next_future pushes } in
      let added : lookup r t.pending_pushes ≡ some c.next_future =
        rw (lookup-insert r r c.next_future pushes, text_eq_refl r) refl in
      let gone : remove r t.pending_pushes ≡ pushes =
        remove-insert r c.next_future pushes (KnownRefs-next c.ref_counter pushes (inv.refs k)) in
      let here : update c.topics k t k ≡ t = rw (==-self k) refl in
      let e = finish_push-own (set_topic d k t) k t r c.next_future here added in
      e ∙ ap (λ g. record d { topics = g }) (update-update c.topics k t _ (rw gone refl))

-- A push that starts on a client that holds the invariant, and whose send is refused before its frame
-- is sent, leaves the client as it was, but for the ref and the future that it took: the push waits no
-- longer, and no other push was forgotten.
pub start_push-finish_push :
    (c : Client) (k : ℕ) (event : ChannelEvent) (value : Value) (timeout : Option ℕ) {p : Pushed}
    → Inv c
    → start_push c k event value timeout ≡ ok p
    → finish_push p.client k (decimal (c.ref_counter + 1)) p.outcome
      ≡ (create_future (generate_ref c).1).1
start_push-finish_push c k event value timeout inv h =
    let (payload, e) = start_push-registered c k event value timeout h in
    rw e (register_push-finish_push c k event payload inv)

-- Such a push keeps the invariant.
pub refused_push-From :
    {o : Client} (c : Client) (k : ℕ) (event : ChannelEvent) (value : Value) (timeout : Option ℕ)
    {p : Pushed}
    → From o c
    → start_push c k event value timeout ≡ ok p
    → From o (finish_push p.client k (decimal (c.ref_counter + 1)) p.outcome)
refused_push-From c k event value timeout f h =
    rw (start_push-finish_push c k event value timeout f.inv h)
      (create_future-From _ (generate_ref-From c f))
