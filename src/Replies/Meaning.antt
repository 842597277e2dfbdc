-- ===== src/Replies/Meaning.antt =====
-- What the reply of a push means, beside replies.py.
use phoenix_channels_python.Base.{
  ◌≡◌, refl, ◌⊎◌, inl, inr, Option, none, some, arith, Result, ok, err, Exc,
}
use phoenix_channels_python.Text.{Text, codes}
use phoenix_channels_python.Json.{Json, Fields, text, object, get}
use phoenix_channels_python.Messages.{Payload, dict, bytes, Message}
use phoenix_channels_python.Replies.{Reply, reply_of, reply_of_payload, reply_from_message}

-- What a server's reply says: a binary one has its status in the frame's header and bytes as its
-- response; one in JSON is an object with a text under "status" and an object under "response".
abbrev pub Answers : Option Text → Payload → Reply → Type 0
Answers (some status) (bytes b) r = r ≡ record { status = status; response = bytes b }
Answers none (dict d) r =
    (response : Fields) × (get (codes "status") d ≡ text r.status)
    × (get (codes "response") d ≡ object response)
    × (r.response ≡ dict response)
Answers _ _ r = ⊥

-- A result that is the reply of that meaning, or an error where there is none.
abbrev pub Means : Option Text → Payload → Result Reply → Type 0
Means status payload x =
    ((r : Reply) × Answers status payload r × (x ≡ ok r))
    ⊎ (((r : Reply) → Answers status payload r → ⊥) × ((e : Exc) × (x ≡ err e)))

reply_of-cases :
    (a b : Json)
    → ((s : Text) × (o : Fields) × (a ≡ text s)
        × (b ≡ object o)
        × (reply_of a b ≡ ok (record { status = s; response = dict o })))
      ⊎ (((s : Text) (o : Fields) → a ≡ text s → b ≡ object o → ⊥)
          × ((e : Exc) × (reply_of a b ≡ err e)))
unfolding reply_of
reply_of-cases (text s) (object o) = inl (s, o, refl, refl, refl)
reply_of-cases (text s) b = inr (λ t o p q. absurd (ground arith), (_, refl))
reply_of-cases a b = inr (λ t o p q. absurd (ground arith), (_, refl))

reply_of_payload-Means :
    (status : Option Text) (p : Payload) → Means status p (reply_of_payload status p)
unfolding reply_of_payload
reply_of_payload-Means (some s) (bytes b) =
    inl (record { status = s; response = bytes b }, refl, refl)
reply_of_payload-Means (some s) (dict d) = inr (λ r h. h, (_, refl))
reply_of_payload-Means none (bytes b) = inr (λ r h. h, (_, refl))
reply_of_payload-Means none (dict d) =
    elim (reply_of-cases (get (codes "status") d) (get (codes "response") d)) [
      | inl (s, o, p, q, e) ↦ inl (record { status = s; response = dict o }, (o, p, q, refl), e)
      | inr (none_fits, (e, x)) ↦ inr (λ r (o, p, q, t). none_fits r.status o p q, (e, x))
    ]

pub reply_from_message-Means :
    (status : Option Text) (m : Message) → Means status m.payload (reply_from_message status m)
unfolding reply_from_message
reply_from_message-Means status m = reply_of_payload-Means status m.payload
