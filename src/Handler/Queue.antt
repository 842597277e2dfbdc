-- ===== src/Handler/Queue.antt =====
-- A channel's queue holds its newest messages, and the count of the others is right.
use phoenix_channels_python.Base.{
  ℕ, zero, suc, ◌+◌, ◌-◌, ◌≤◌, ◌<◌, ◌≡◌, refl, sym, ◌∙◌, ap, inl, inr, List, [], ◌∷◌, arith, leb,
  leb→le, Bool-cases, length, ◌++◌, drop, length-append, append_assoc, append-nil, lt→ltb,
}
use phoenix_channels_python.Messages.{Message}
use phoenix_channels_python.Topic.{Topic}
use phoenix_channels_python.Handler.{is_full, enqueue_message}

module _ {ℓ} {A : Type ℓ} where
  length-drop : (n : ℕ) (xs : List A) → length (drop n xs) ≡ length xs - n
  length-drop zero xs = omega arith
  length-drop (suc n) [] = omega arith
  length-drop (suc n) (x ∷ xs) = omega (arith, length-drop n xs)

  drop-append_le : (n : ℕ) (xs ys : List A) → n ≤ length xs → drop n (xs ++ ys) ≡ drop n xs ++ ys
  drop-append_le zero xs ys h = refl
  drop-append_le (suc n) [] ys h = absurd (omega arith)
  drop-append_le (suc n) (x ∷ xs) ys h = drop-append_le n xs ys (omega arith)

  drop-nil : (n : ℕ) → drop {A = A} n [] ≡ []
  drop-nil zero = refl
  drop-nil (suc n) = refl

  drop-drop : (n m : ℕ) (xs : List A) → drop n (drop m xs) ≡ drop (m + n) xs
  drop-drop n zero xs = ap (λ j. drop j xs) (omega arith)
  drop-drop n (suc m) [] = drop-nil n ∙ sym (drop-nil (suc m + n))
  drop-drop n (suc m) (x ∷ xs) =
      drop-drop n m xs ∙ ap (λ j. drop j (x ∷ xs)) {x = suc (m + n)} (omega arith)

  -- The last `n` entries.
  abbrev pub newest : ℕ → List A → List A
  newest n xs = drop (length xs - n) xs

  newest-append : (n : ℕ) (xs ys : List A) → newest n (newest n xs ++ ys) ≡ newest n (xs ++ ys)
  newest-append n xs ys =
      let k = length xs - n in
      let le : k ≤ length xs = omega arith in
      rw (← drop-append_le k xs ys le) (
        drop-drop (length (drop k (xs ++ ys)) - n) k (xs ++ ys)
        ∙ ap (λ j. drop j (xs ++ ys))
            (omega (arith, length-drop k (xs ++ ys), length-append xs ys)))

  newest-few : (n : ℕ) (xs : List A) → length xs ≤ n → newest n xs ≡ xs
  newest-few n xs h = let e : length xs - n ≡ 0 = omega arith in rw e

abbrev pub enqueue_messages : Topic → List Message → Topic
enqueue_messages t [] = t
enqueue_messages t (m ∷ ms) = enqueue_messages (enqueue_message t m) ms

module _ (t : Topic) (m : Message) (bounded : 0 < t.max_queue)
    (fits : length t.queue ≤ t.max_queue) where
  is_full-leb : is_full t ≡ leb t.max_queue (length t.queue)
  unfolding is_full
  is_full-leb = rw (lt→ltb 0 t.max_queue bounded)

  grown : length (t.queue ++ (m ∷ [])) ≡ length t.queue + 1
  grown = omega (arith, length-append t.queue (m ∷ []))

  -- The channel after a message: its newest messages, and a count of the others.
  enqueue-queue :
      ((enqueue_message t m).queue ≡ newest t.max_queue (t.queue ++ (m ∷ [])))
      × ((enqueue_message t m).dropped_message_count
          ≡ t.dropped_message_count + (length (t.queue ++ (m ∷ [])) - t.max_queue))
      × ((enqueue_message t m).max_queue ≡ t.max_queue)
  unfolding enqueue_message
  enqueue-queue = elim (Bool-cases (leb t.max_queue (length t.queue))) [
    | inl e ↦
        let one : length (t.queue ++ (m ∷ [])) - t.max_queue ≡ 1 =
          omega (arith, leb→le t.max_queue (length t.queue) e, grown) in
        rw (one, is_full-leb, e)
          (
            sym (
                drop-append_le 1 t.queue (m ∷ [])
                  (omega (arith, leb→le t.max_queue (length t.queue) e))),
            refl,
            refl,
          )
    | inr e ↦
        let few : length (t.queue ++ (m ∷ [])) ≤ t.max_queue = ground (arith, grown) in
        let zero_more : length (t.queue ++ (m ∷ [])) - t.max_queue ≡ 0 = omega arith in
        rw (is_full-leb, e, zero_more) (refl, omega arith, refl)
  ]

  enqueue-fits : length (enqueue_message t m).queue ≤ t.max_queue
  enqueue-fits = omega (
    arith,
    ap length enqueue-queue.0,
    length-drop (length (t.queue ++ (m ∷ [])) - t.max_queue) (t.queue ++ (m ∷ [])),
  )

-- However many messages arrive, a queue of a given size that starts within it holds the newest ones
-- in their order, and the channel has counted exactly the others.
pub enqueue_messages-newest :
    (t : Topic) (ms : List Message)
    → 0 < t.max_queue
    → length t.queue ≤ t.max_queue
    → ((enqueue_messages t ms).queue ≡ newest t.max_queue (t.queue ++ ms))
      × ((enqueue_messages t ms).dropped_message_count
          ≡ t.dropped_message_count + (length (t.queue ++ ms) - t.max_queue))
enqueue_messages-newest t [] bounded fits =
    rw (append-nil t.queue) (sym (newest-few t.max_queue t.queue fits), omega arith)
enqueue_messages-newest t (m ∷ ms) bounded fits =
    let (q, d, x) = enqueue-queue t m bounded fits in
    let u = enqueue_message t m in
    let ih =
      enqueue_messages-newest u ms (omega arith) (omega (arith, enqueue-fits t m bounded fits)) in
    let queue_size : length u.queue
        ≡ length (t.queue ++ (m ∷ [])) - (length (t.queue ++ (m ∷ [])) - t.max_queue) =
      ap length q
      ∙ length-drop (length (t.queue ++ (m ∷ [])) - t.max_queue) (t.queue ++ (m ∷ [])) in
    let all : t.queue ++ (m ∷ []) ++ ms ≡ t.queue ++ (m ∷ ms) = append_assoc t.queue (m ∷ []) ms in
    (
      ih.0
          ∙ rw (x, q) (newest-append t.max_queue (t.queue ++ (m ∷ [])) ms)
          ∙ ap (newest t.max_queue) all,
      omega (
        arith,
        ih.1,
        d,
        x,
        queue_size,
        grown t m bounded fits,
        length-append u.queue ms,
        length-append t.queue (m ∷ ms),
      ),
    )
