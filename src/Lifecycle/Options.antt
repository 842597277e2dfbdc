-- ===== src/Lifecycle/Options.antt =====
-- The checks of the options: `_validate_heartbeat_threshold` and those of `Client.__init__`.
use phoenix_channels_python.Base.{
  ℕ, ◌<◌, ◌≡◌, refl, Bool, true, false, ◌&&◌, ◌||◌, not, Option, none, some, arith, ◌==◌, ltb, leb,
  Result, ok, ◌>>◌, guard, value_error, bad_option,
}
use phoenix_channels_python.Text.{Text, is_empty}

-- A float of seconds: thousandths of a second, or a number that is no time.
pub data Seconds : Type 0 where
  finite : ℕ → Seconds
  negative infinite minus_infinite nan : Seconds

-- `math.isfinite(x)`
unfoldable pub is_finite : Seconds → Bool
is_finite (finite n) = true
is_finite negative = true
is_finite _ = false

-- `x <= 0`; nan compares to nothing.
unfoldable pub is_nonpositive : Seconds → Bool
is_nonpositive (finite n) = n == 0
is_nonpositive negative = true
is_nonpositive minus_infinite = true
is_nonpositive _ = false

-- `threshold <= interval`, for numbers that are finite and of which the first one is positive.
unfoldable pub at_most : Seconds → Seconds → Bool
at_most (finite m) (finite n) = leb m n
at_most _ _ = false

-- `interval is not None and (not math.isfinite(interval) or threshold <= interval)`
too_short : Option Seconds → Seconds → Bool
too_short none threshold = false
too_short (some interval) threshold = not (is_finite interval) || at_most threshold interval

-- `_validate_heartbeat_threshold`
unfoldable pub validate_heartbeat_threshold : Option Seconds → Option Seconds → Result (Unit {0})
unfolding too_short
validate_heartbeat_threshold interval none = ok tt
validate_heartbeat_threshold interval (some threshold) = do
  guard (is_finite threshold && not (is_nonpositive threshold)) (value_error bad_option)
  guard (not (too_short interval threshold)) (value_error bad_option)

-- The options that `Client.__init__` checks, in the order of its checks.
pub record ClientOptions : Type 0 where
  pub api_key : Option Text
  pub heartbeat_interval : Option Seconds
  pub heartbeat_dead_threshold : Option Seconds
  pub join_timeout : Seconds
  pub leave_timeout : Seconds
  pub max_topic_queue_size : ℕ
  pub callback_drain_timeout : Seconds

is_empty_key : Option Text → Bool
is_empty_key none = false
is_empty_key (some k) = is_empty k

is_disabled : Option Seconds → Bool
is_disabled none = false
is_disabled (some interval) = is_nonpositive interval

unfoldable pub validate_options : ClientOptions → Result (Unit {0})
unfolding is_empty_key is_disabled
validate_options o = do
  guard (not (is_empty_key o.api_key)) (value_error bad_option)
  guard (not (is_disabled o.heartbeat_interval)) (value_error bad_option)
  validate_heartbeat_threshold o.heartbeat_interval o.heartbeat_dead_threshold
  guard (is_finite o.join_timeout && not (is_nonpositive o.join_timeout)) (value_error bad_option)
  guard (is_finite o.leave_timeout && not (is_nonpositive o.leave_timeout)) (value_error bad_option)
  guard (ltb 0 o.max_topic_queue_size) (value_error bad_option)
  guard (not (is_nonpositive o.callback_drain_timeout)) (value_error bad_option)

-- With a threshold and an interval that the client takes, a heartbeat that is sent after each interval
-- always has time for its answer: both are finite, and 0 < interval < threshold.
pub validate_options-heartbeat :
    (o : ClientOptions) (interval threshold : Seconds)
    → o.heartbeat_interval ≡ some interval
    → o.heartbeat_dead_threshold ≡ some threshold
    → validate_options o ≡ ok tt
    → (i : ℕ) × (t : ℕ) × (interval ≡ finite i) × (threshold ≡ finite t) × (0 < i) × (i < t)
unfolding validate_options validate_heartbeat_threshold is_finite is_nonpositive at_most too_short
    is_disabled
validate_options-heartbeat o (finite i) (finite t) e f h =
    (i, t, refl, refl, ground arith, ground arith)
validate_options-heartbeat o interval threshold e f h = absurd (ground arith)
