-- ===== src/Logging/Strategy/Advanced/Counts.antt =====
-- The statistics of an AdvancedSampler (pkg/logging/sampling_strategies.go) and of its strategies.
use mcp_memory_core.Base.{
  ℕ, zero, suc, ◌+◌, ◌≡◌, ◌<◌, Bool, true, false, inl, inr, not, List, [], ◌∷◌, map, eqb, arith,
  Bool-cases, All, if◌then◌else◌,
}
use mcp_memory_core.Base.Int.{int64}
use mcp_memory_core.Base.Float.{Floats}
use mcp_memory_core.Logging.Strategy.{
  Call, SamplingStrategyStats, count, with_rate, tally, no_stats,
}
use mcp_memory_core.Logging.Strategy.FixedRate as Fixed
use mcp_memory_core.Logging.Strategy.AdaptiveLoad as Adaptive
use mcp_memory_core.Logging.Strategy.AdaptiveLoad.{adjust_rate}
use mcp_memory_core.Logging.Strategy.PriorityBased as Priority
use mcp_memory_core.Logging.Strategy.TailBased as Tail
use mcp_memory_core.Logging.Strategy.Advanced.{
  AdvancedSamplingConfig, AdvancedSampler, Event, sampling, adjusting, new_advanced_sampler,
  sample_at, override_all, overridden, should_sample, adjust_sampling_rates, step, run, calls,
}
use mcp_memory_core.Logging.Strategy.Advanced.Kinds.{
  Strategy, fixed_rate, adaptive_load, priority_based, tail_based, sample_by, adjust, held_stats,
}
use mcp_memory_core.Logging.Strategy.TailBased.{new_tail_based}

module _ {F : Type 0} where
  -- The statistics have `n` evaluations, each of them counted as kept or as dropped.
  unfoldable pub AreCounted : ℕ → SamplingStrategyStats F → Type 0
  AreCounted n s =
      (s.total_evaluated ≡ int64 n)
      × (s.total_evaluated ≡ int64 (s.total_sampled + s.total_dropped))

  abbrev pub AllCounted : ℕ → List (Strategy F) → Type 0
  AllCounted n ss = All (λ s. AreCounted n (held_stats s)) ss

  -- The strategy at the default position has one evaluation more than the others.
  abbrev IsAhead : ℕ → ℕ → ℕ → List (Strategy F) → Type 0
  IsAhead i d n [] = Unit
  IsAhead i d n (s ∷ ss) =
      AreCounted (if eqb i d then n + 1 else n) (held_stats s) × IsAhead (i + 1) d n ss

module _ {F : Type 0} (fl : Floats F) where
  tally-AreCounted :
      (kept : Bool) (now n : ℕ) (s : SamplingStrategyStats F)
      → AreCounted n s
      → AreCounted (n + 1) (tally fl kept now s)
  unfolding tally count with_rate AreCounted
  tally-AreCounted kept now n s h = ground (arith, h.0, h.1)

  sample_by-IsCounted :
      (c : Call F) (n : ℕ) (s : Strategy F)
      → AreCounted n (held_stats s)
      → AreCounted (n + 1) (held_stats (sample_by fl c s).0)
  unfolding sample_by held_stats Fixed.should_sample Adaptive.should_sample Priority.should_sample
      Tail.should_sample
  sample_by-IsCounted c n (fixed_rate f) h = tally-AreCounted _ c.now n f.stats h
  sample_by-IsCounted c n (adaptive_load a) h =
      tally-AreCounted _ c.now n (record a.stats { current_threshold = a.current_rate })
        (unfold AreCounted in h)
  sample_by-IsCounted c n (priority_based p) h = tally-AreCounted _ c.now n p.stats h
  sample_by-IsCounted c n (tail_based t) h = tally-AreCounted _ c.now n t.stats h

  adjust-IsCounted :
      (now : ℕ) (load memory : F) (n : ℕ) (s : Strategy F)
      → AreCounted n (held_stats s)
      → AreCounted n (held_stats (adjust fl now load memory s))
  unfolding adjust held_stats adjust_rate AreCounted
  adjust-IsCounted now load memory n (fixed_rate f) h = h
  adjust-IsCounted now load memory n (adaptive_load a) h = ground (arith, h.0, h.1)
  adjust-IsCounted now load memory n (priority_based p) h = h
  adjust-IsCounted now load memory n (tail_based t) h = h

  -- The default strategy stands before the position `i`.
  past-IsAhead : (i d n : ℕ) (ss : List (Strategy F)) → d < i → AllCounted n ss → IsAhead i d n ss
  past-IsAhead i d n [] h v = tt
  past-IsAhead i d n (s ∷ ss) h v =
      let past : eqb i d ≡ false = ground arith in
      (rw past v.0, past-IsAhead (i + 1) d n ss (omega arith) v.1)

  sample_at-IsAhead :
      (i k n : ℕ) (c : Call F) (ss : List (Strategy F))
      → AllCounted n ss
      → IsAhead i (i + k) n (sample_at fl k c ss).0
  unfolding sample_at
  sample_at-IsAhead i k n c [] v = tt
  sample_at-IsAhead i zero n c (s ∷ ss) v =
      let here : eqb i (i + 0) ≡ true = ground arith in
      (rw here (sample_by-IsCounted c n s v.0), past-IsAhead (i + 1) (i + 0) n ss (omega arith) v.1)
  sample_at-IsAhead i (suc k) n c (s ∷ ss) v =
      let later : eqb i (i + suc k) ≡ false = ground arith in
      let sum : i + suc k ≡ i + 1 + k = omega arith in
      (rw later v.0, rw sum (sample_at-IsAhead (i + 1) k n c ss v.1))

  -- The loop gives each of the other strategies its evaluation.
  override_all-AllCounted :
      (i d n : ℕ) (c : Call F) (kept : Bool) (ss : List (Strategy F))
      → IsAhead i d n ss
      → AllCounted (n + 1) (override_all fl i d c kept ss).0
  unfolding override_all
  override_all-AllCounted i d n c kept [] v = tt
  override_all-AllCounted i d n c kept (s ∷ ss) v = elim (Bool-cases (eqb i d)) [
    | inl same ↦ rw same (rw same at v.0, override_all-AllCounted (i + 1) d n c kept ss v.1)
    | inr other ↦ rw other (
      sample_by-IsCounted c n s (rw other at v.0),
      override_all-AllCounted (i + 1) d n c (overridden fl s (sample_by fl c s).1 kept) ss v.1,
    )
  ]

  adjust_all-AllCounted :
      (now : ℕ) (load memory : F) (n : ℕ) (ss : List (Strategy F))
      → AllCounted n ss
      → AllCounted n (map (adjust fl now load memory) ss)
  adjust_all-AllCounted now load memory n [] v = tt
  adjust_all-AllCounted now load memory n (s ∷ ss) v =
      (adjust-IsCounted now load memory n s v.0, adjust_all-AllCounted now load memory n ss v.1)

  calls_cons :
      (e : Event F) (es : List (Event F)) (n : ℕ)
      → calls (e ∷ es) + n ≡ calls es + (calls (e ∷ []) + n)
  unfolding calls
  calls_cons (sampling c) es n = omega arith
  calls_cons (adjusting now load memory) es n = omega arith

  -- After `n` calls.
  record IsAfter (config : AdvancedSamplingConfig F) (n : ℕ) (a : AdvancedSampler F) : Type 0 where
    pub configured : a.config ≡ config
    pub overall : AreCounted n a.stats
    pub each : AllCounted n a.strategies

  new-IsAfter :
      (config : AdvancedSamplingConfig F) → IsAfter config 0 (new_advanced_sampler fl config)
  unfolding new_advanced_sampler no_stats held_stats AreCounted new_tail_based
  new-IsAfter config = ground arith

  if-IsAfter :
      (config : AdvancedSamplingConfig F) (n : ℕ) (b : Bool) (x y : AdvancedSampler F × Bool)
      → b ≡ false
      → IsAfter config n y.0
      → IsAfter config n (if b then x else y).0
  if-IsAfter config n true x y off v = absurd (cc off)
  if-IsAfter config n false x y off v = v

  step-IsAfter :
      (config : AdvancedSamplingConfig F) (n : ℕ) (e : Event F) (a : AdvancedSampler F)
      → config.enabled ≡ true
      → IsAfter config n a
      → IsAfter config (calls (e ∷ []) + n) (step fl e a)
  unfolding step calls should_sample adjust_sampling_rates
  step-IsAfter config n (sampling c) a on v =
      let d = a.default_strategy in
      let at = sample_at fl d c a.strategies in
      let sum : 0 + 1 + n ≡ n + 1 = omega arith in
      let start : 0 + d ≡ d = omega arith in
      let ahead : IsAhead 0 d n at.0 =
        rw start at (sample_at-IsAhead 0 d n c a.strategies v.each) in
      rw sum (
        if-IsAfter config (n + 1) (not a.config.enabled) (a, true) _
          (ground (arith, v.configured, on))
          (record {
            configured = v.configured;
            overall = tally-AreCounted _ c.now n a.stats v.overall;
            each = override_all-AllCounted 0 d n c at.1 at.0 ahead;
          }))
  step-IsAfter config n (adjusting now load memory) a on v =
      let sum : 0 + n ≡ n = omega arith in
      rw sum (record {
        configured = v.configured;
        overall = v.overall;
        each = adjust_all-AllCounted now load memory n a.strategies v.each;
      })

  run-IsAfter :
      (config : AdvancedSamplingConfig F) (n : ℕ) (es : List (Event F)) (a : AdvancedSampler F)
      → config.enabled ≡ true
      → IsAfter config n a
      → IsAfter config (calls es + n) (run fl es a)
  unfolding run calls
  run-IsAfter config n [] a on v = let sum : 0 + n ≡ n = omega arith in rw sum v
  run-IsAfter config n (e ∷ es) a on v =
      let sum : calls (e ∷ es) + n ≡ calls es + (calls (e ∷ []) + n) = calls_cons e es n in
      rw sum (
        run-IsAfter config (calls (e ∷ []) + n) es (step fl e a) on
          (step-IsAfter config n e a on v))

  -- After any calls, one after another, and any adjustments, an enabled sampler and each of its
  -- strategies have evaluated every call exactly once, and each counts every evaluation as kept or as
  -- dropped, up to the wrap-around of the 64-bit counters.
  pub every_strategy_counts :
      (config : AdvancedSamplingConfig F) (es : List (Event F))
      → config.enabled ≡ true
      → AreCounted (calls es) (run fl es (new_advanced_sampler fl config)).stats
        × AllCounted (calls es) (run fl es (new_advanced_sampler fl config)).strategies
  every_strategy_counts config es on =
      let sum : calls es + 0 ≡ calls es = omega arith in
      let v = run-IsAfter config 0 es (new_advanced_sampler fl config) on (new-IsAfter config) in
      (rw sum at v.overall, rw sum at v.each)
