-- ===== src/Reconnect/Decider/Churn.antt =====
-- Rapid disconnects: what is counted, and when the count stops the client.
use phoenix_channels_python.Base.{
  ℕ, ◌+◌, ◌-◌, ◌≤◌, ◌<◌, ◌≡◌, refl, ap, ◌⊎◌, inl, inr, Bool, true, false, ◌&&◌, List, [], ◌∷◌, ◌++◌,
  arith, Bool-cases, Result, ok, err, ltb, length, length-append, All, All-append, map,
}
use phoenix_channels_python.Reconnect.Policy.{
  ReconnectPolicy, ReconnectDecision, ConnectError, ReconnectEvent, is_gate, at_disconnected,
  at_connect_failed,
}
use phoenix_channels_python.Reconnect.Decider.{
  Decider, Draws, decide, after_close, after_connect_failure, retry_after_close,
  retry_after_failure, stop_for_close, prune, record_disconnect, is_suppressed, note_uptime,
  is_terminal_handshake,
}

-- After a disconnect or a failed attempt on which the client goes on, it remembers fewer rapid
-- disconnects than the policy tolerates, if the policy has such a threshold.
pub decide-below_threshold :
    (d : Decider) (now : ℕ) (r : Draws) (e : ReconnectEvent) (x : ReconnectDecision)
    → is_gate e ≡ false
    → 0 < d.policy.rapid_suppress_disconnect_count
    → (decide d now r e).0 ≡ ok x
    → x.should_reconnect ≡ true
    → length (decide d now r e).1.rapid_disconnects < d.policy.rapid_suppress_disconnect_count
unfolding decide after_close after_connect_failure retry_after_close retry_after_failure
    stop_for_close is_suppressed note_uptime
decide-below_threshold d now r (at_disconnected c t) x g p h k = ground arith
decide-below_threshold d now r (at_connect_failed e) x g p h k = ground arith
decide-below_threshold d now r e x g p h k = ground arith

-- The times that lie at most `window` before `end`.
abbrev pub Within : ℕ → ℕ → List ℕ → Type 0
Within window end = All (λ t. (t ≤ end) × (end - t ≤ window))

prune-Within :
    (window now end : ℕ) (ts : List ℕ) → now ≤ end → Within window end ts → prune window now ts ≡ ts
unfolding prune
prune-Within window now end [] le h = refl
prune-Within window now end (t ∷ ts) le h = ground arith

-- What remains of the rapid disconnects lies in the window, whatever it was before.
pub prune-recent :
    (window now : ℕ) (ts : List ℕ)
    → (prune window now ts ≡ [])
      ⊎ ((t : ℕ) × (rest : List ℕ) × (prune window now ts ≡ t ∷ rest) × (now - t ≤ window))
unfolding prune
prune-recent window now [] = inl refl
prune-recent window now (t ∷ ts) = elim (Bool-cases (ltb window (now - t))) [
  | inl old ↦ rw old (prune-recent window now ts)
  | inr new ↦ rw new (inr (t, ts, refl, ground arith))
]

abbrev is_retry : Result ReconnectDecision → Bool
is_retry (ok x) = x.should_reconnect
is_retry (err e) = false

-- A failed attempt to connect: when, with which error, and what is drawn then.
pub record Failure : Type 0 where
  pub time : ℕ
  pub error : ConnectError
  pub draws : Draws

-- Does the client go on through these failures?
unfoldable pub goes_on : Decider → List Failure → Bool
goes_on d [] = true
goes_on d (f ∷ fs) =
    let (answer, d') = after_connect_failure d f.time f.draws f.error in
    is_retry answer && goes_on d' fs

-- One failure that the client survives adds one to the count.
record FailureStep (d d' : Decider) (now : ℕ) : Type 0 where
  policy : d'.policy ≡ d.policy
  counted : d'.rapid_disconnects ≡ d.rapid_disconnects ++ now ∷ []
  below : length d'.rapid_disconnects < d.policy.rapid_suppress_disconnect_count

failure_step :
    (d : Decider) (r : Draws) (e : ConnectError) (now end : ℕ)
    → 0 < d.policy.rapid_suppress_disconnect_count
    → 0 < d.policy.rapid_disconnect_uptime
    → now ≤ end
    → Within d.policy.rapid_window end (d.rapid_disconnects ++ now ∷ [])
    → is_retry (after_connect_failure d now r e).0 ≡ true
    → FailureStep d (after_connect_failure d now r e).1 now
unfolding after_connect_failure is_terminal_handshake is_suppressed record_disconnect
    retry_after_failure
failure_step d r e now end p q le w h =
    ground (arith, prune-Within d.policy.rapid_window now end (d.rapid_disconnects ++ now ∷ []))

-- When a client's attempts to connect fail at times that lie in one window, each with any error, with
-- the disconnects that it remembers, and it goes on after each of them, then they are fewer than the
-- policy tolerates. The
-- policy counts failures (its least uptime is not 0), and what is remembered is below its threshold.
pub goes_on-lt :
    (d : Decider) (fs : List Failure) (end : ℕ)
    → 0 < d.policy.rapid_disconnect_uptime
    → length d.rapid_disconnects < d.policy.rapid_suppress_disconnect_count
    → Within d.policy.rapid_window end d.rapid_disconnects
    → Within d.policy.rapid_window end (map (λ (f : Failure). f.time) fs)
    → goes_on d fs ≡ true
    → length d.rapid_disconnects + length fs < d.policy.rapid_suppress_disconnect_count
unfolding goes_on
goes_on-lt d [] end u lt w v h = omega arith
goes_on-lt d (f ∷ fs) end u lt w v h =
    let d' = (after_connect_failure d f.time f.draws f.error).1 in
    let both =
      All-append (λ x. (x ≤ end) × (end - x ≤ d.policy.rapid_window)) d.rapid_disconnects
        (f.time ∷ []) w (v.0, tt) in
    let step =
      failure_step d f.draws f.error f.time end (omega arith) u v.0.0 both (ground arith) in
    let ih =
      goes_on-lt d' fs end (rw step.policy u) (rw step.policy step.below)
        (rw (step.policy, step.counted) both) (rw step.policy v.1) (ground arith) in
    omega (
      arith,
      ih,
      ap length step.counted,
      length-append d.rapid_disconnects (f.time ∷ []),
      ap (λ (p : ReconnectPolicy). p.rapid_suppress_disconnect_count) step.policy,
    )
