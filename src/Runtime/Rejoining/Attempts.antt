-- ===== src/Runtime/Rejoining/Attempts.antt =====
-- The loop of `_recover_channel`: when it tries, and how long it waits before.
use phoenix_channels_python.Base.{
  ℕ, ◌+◌, ◌≡◌, refl, inl, inr, Bool, true, false, List, [], ◌∷◌, arith, Bool-cases, All,
}
use phoenix_channels_python.Runtime.{
  Client, can_recover, should_rejoin, is_registered, is_connected,
}
use phoenix_channels_python.Topic.{is_left}
use phoenix_channels_python.Runtime.Rejoining.{
  recovery_stage, after_wait, after_attempt, Turn, Recovery, ended_at, attempt_rejoin,
  recovery_loop,
}

-- The numbers from `n` on, in their order.
abbrev pub CountsFrom : ℕ → List ℕ → Type 0
CountsFrom n [] = Unit
CountsFrom n (m ∷ ms) = (m ≡ n) × CountsFrom (n + 1) ms

-- A client in which a channel may be recovered on the connection of a generation.
pub record Recoverable (k generation : ℕ) (c : Client) : Type 0 where
  pub running : c.shutdown_requested ≡ false
  pub registered : is_registered c k ≡ true
  pub established : (c.topics k).established ≡ true
  pub kept : (c.topics k).leave_requested ≡ false
  pub not_left : is_left (c.topics k).state ≡ false
  pub connected : is_connected c ≡ true
  pub current : generation ≡ c.conn_generation

can_recover-Recoverable :
    (c : Client) (k generation : ℕ) → can_recover c k generation ≡ true → Recoverable k generation c
unfolding can_recover should_rejoin
can_recover-Recoverable c k generation h = record {
  running = ground arith;
  registered = ground arith;
  established = ground arith;
  kept = ground arith;
  not_left = ground arith;
  connected = ground arith;
  current = ground arith;
}

module _ (k generation : ℕ) where
  abbrev Sound : ℕ → Recovery → Type 0
  Sound attempt r = CountsFrom attempt r.delays × All (Recoverable k generation) r.begun

  attempt_rejoin-Sound :
      (attempt : ℕ) (rest : Client → Recovery) (turn : Turn) (c : Client)
      → can_recover c k generation ≡ true
      → ((d : Client) → Sound attempt (rest d))
      → Sound attempt (attempt_rejoin k rest turn c)
  unfolding attempt_rejoin ended_at
  attempt_rejoin-Sound attempt rest turn c may h =
      let d = (turn.rejoin c).1 in
      elim (Bool-cases (after_attempt d k (turn.rejoin c).0).0) [
        | inl e ↦ rw e (tt, (can_recover-Recoverable c k generation may, tt))
        | inr e ↦
            let s = h (after_attempt d k (turn.rejoin c).0).1 in
            rw e (s.0, (can_recover-Recoverable c k generation may, s.1))
      ]

  -- Whatever happens while it waits and rejoins, a recovery waits for the delays of the attempts 0, 1,
  -- 2 and so on from its first one, and it begins to rejoin only in a client that is connected, on the
  -- recovery's own connection, without a shutdown requested, while the channel is registered, was joined
  -- once, has not left and is not asked to leave.
  pub recovery_loop-Sound :
      (immediate : Bool) (attempt : ℕ) (turns : List Turn) (c : Client)
      → let r = recovery_loop k generation immediate attempt turns c in
        CountsFrom attempt r.delays × All (Recoverable k generation) r.begun
  unfolding recovery_loop recovery_stage after_wait ended_at
  recovery_loop-Sound immediate attempt [] c = (tt, tt)
  recovery_loop-Sound immediate attempt (turn ∷ turns) c =
      elim (Bool-cases (can_recover c k generation)) [
        | inl may ↦ elim (Bool-cases immediate) [
          | inl now ↦
              rw (recovery_loop, may, now)
                (attempt_rejoin-Sound attempt (recovery_loop k generation false attempt turns) turn
                  c may (recovery_loop-Sound false attempt turns))
          | inr later ↦ elim (Bool-cases (can_recover (turn.meanwhile c) k generation)) [
            | inl still ↦
                let s =
                  attempt_rejoin-Sound (attempt + 1)
                    (recovery_loop k generation false (attempt + 1) turns) turn (turn.meanwhile c)
                    still (recovery_loop-Sound false (attempt + 1) turns) in
                rw (recovery_loop, may, later, still) ((refl, s.0), s.1)
            | inr lost ↦ rw (recovery_loop, may, later, lost) ((refl, tt), tt)
          ]
        ]
        | inr never ↦ rw (recovery_loop, never) (tt, tt)
      ]
