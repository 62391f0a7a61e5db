-- ===== src/Logging/Sampler.antt =====
-- pkg/logging/sampler.go: which log records are kept. `F` is float64 with its order, and times are
-- in nanoseconds. The lock makes each call one step.
pub mod Counts
use mcp_memory_core.Base.{
  ℕ, ◌+◌, ◌%◌, Bool, ◌&&◌, not, true, false, List, [], ◌∷◌, ltb, if◌then◌else◌,
}
use mcp_memory_core.Base.Int.{ℤ, is_above, int64}

pub record SamplingConfig (F : Type 0) : Type 0 where
  pub enabled : Bool
  pub rate : F
  pub burst_size : ℤ
  pub always_errors : Bool

pub record Sampler (F : Type 0) : Type 0 where
  pub config : SamplingConfig F
  pub counter : ℕ
  pub window : ℕ
  pub total_seen : ℕ
  pub total_sampled : ℕ
  pub total_dropped : ℕ

unfoldable pub new_sampler : {F : Type 0} → SamplingConfig F → ℕ → Sampler F
new_sampler config now = record {
  config = config;
  counter = 0;
  window = now;
  total_seen = 0;
  total_sampled = 0;
  total_dropped = 0;
}

abbrev pub minute : ℕ
minute = 60000000000

-- slog.LevelError is 8.
abbrev pub is_error : ℤ → Bool
is_error level = is_above 7 level

module _ {F : Type 0} (less : F → F → Bool) where
  abbrev pub seen : Sampler F → Sampler F
  seen s = record s { total_seen = int64 (s.total_seen + 1) }

  abbrev pub sampled : Sampler F → Sampler F
  sampled s = record s { total_sampled = int64 (s.total_sampled + 1) }

  abbrev pub dropped : Sampler F → Sampler F
  dropped s = record s { total_dropped = int64 (s.total_dropped + 1) }

  -- The counter starts anew when more than a minute has passed.
  unfoldable pub renew : ℕ → Sampler F → Sampler F
  renew now s = if ltb (s.window + minute) now then record s { counter = 0; window = now } else s

  abbrev pub has_burst : Sampler F → Bool
  has_burst s = is_above s.counter s.config.burst_size

  -- `draw` is the random number, if one is drawn.
  unfoldable pub sample_renewed : F → Sampler F → Sampler F × Bool
  sample_renewed draw s =
      if has_burst s
      then (sampled (record s { counter = s.counter + 1 }), true)
      else if less draw s.config.rate
      then (sampled s, true)
      else (dropped s, false)

  unfoldable pub should_sample : ℤ → ℕ → F → Sampler F → Sampler F × Bool
  unfolding renew sample_renewed
  should_sample level now draw s =
      if not s.config.enabled
      then (sampled (seen s), true)
      else if s.config.always_errors && is_error level
      then (sampled (seen s), true)
      else sample_renewed draw (renew now (seen s))

-- A call of ShouldSample: the record's level, the time and the random number.
pub record Call (F : Type 0) : Type 0 where
  pub level : ℤ
  pub now : ℕ
  pub draw : F

-- A sampler after a sequence of calls.
unfoldable pub run : {F : Type 0} → (F → F → Bool) → List (Call F) → Sampler F → Sampler F
unfolding should_sample
run less [] s = s
run less (c ∷ cs) s = run less cs (should_sample less c.level c.now c.draw s).0
