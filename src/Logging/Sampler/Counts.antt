-- ===== src/Logging/Sampler/Counts.antt =====
-- The statistics of the sampler (pkg/logging/sampler.go) and the records that it drops.
use mcp_memory_core.Base.{
  ℕ, ◌+◌, ◌≡◌, ◌↔◌, refl, Bool, true, false, ◌&&◌, List, [], ◌∷◌, arith, length, ltb, if◌then◌else◌,
}
use mcp_memory_core.Base.Int.{int64, ℤ, is_above}
use mcp_memory_core.Logging.Sampler.{
  SamplingConfig, Sampler, Call, new_sampler, minute, is_error, renew, sample_renewed,
  should_sample, run,
}

module _ {F : Type 0} (less : F → F → Bool) where
  -- Every record that was seen was kept or dropped.
  abbrev pub Conserves : Sampler F → Type 0
  Conserves s = s.total_seen ≡ int64 (s.total_sampled + s.total_dropped)

  call-Conserves :
      (c : Call F) (s : Sampler F)
      → Conserves s
      → Conserves (should_sample less c.level c.now c.draw s).0
  unfolding should_sample sample_renewed renew
  call-Conserves c s h = ground (arith, h)

  run-Conserves : (cs : List (Call F)) (s : Sampler F) → Conserves s → Conserves (run less cs s)
  unfolding run
  run-Conserves [] s h = h
  run-Conserves (c ∷ cs) s h = run-Conserves cs _ (call-Conserves c s h)

  call_seen :
      (c : Call F) (s : Sampler F)
      → (should_sample less c.level c.now c.draw s).0.total_seen ≡ int64 (s.total_seen + 1)
  unfolding should_sample sample_renewed renew
  call_seen c s = ground arith

  run_seen :
      (cs : List (Call F)) (s : Sampler F) (k : ℕ)
      → s.total_seen ≡ int64 k
      → (run less cs s).total_seen ≡ int64 (k + length cs)
  unfolding run
  run_seen [] s k h = omega (arith, h)
  run_seen (c ∷ cs) s k h =
      let step =
        run_seen cs (should_sample less c.level c.now c.draw s).0 (k + 1)
          (omega (arith, call_seen c s, h)) in
      omega (arith, step)

  -- Whatever the calls, a sampler has seen as many records as it was called with, and each of them
  -- was counted as kept or as dropped, up to the wrap-around of the 64-bit counters.
  pub sampler_counts :
      (config : SamplingConfig F) (start : ℕ) (cs : List (Call F))
      → ((run less cs (new_sampler config start)).total_seen ≡ int64 (length cs))
        × Conserves (run less cs (new_sampler config start))
  unfolding new_sampler
  sampler_counts config start cs = (
    omega (arith, run_seen cs (new_sampler config start) 0 refl),
    run-Conserves cs (new_sampler config start) refl,
  )

  -- A record is dropped exactly if sampling is on, the record is not an error that is always kept,
  -- the burst of the current minute is used up, and the random number is not below the rate.
  pub dropped_iff :
      (level : ℤ) (now : ℕ) (draw : F) (s : Sampler F)
      → ((should_sample less level now draw s).1 ≡ false) ↔ (
          (s.config.enabled ≡ true)
          × ((s.config.always_errors && is_error level) ≡ false)
          × (is_above (if ltb (s.window + minute) now then 0 else s.counter) s.config.burst_size
              ≡ false)
          × (less draw s.config.rate ≡ false))
  unfolding should_sample sample_renewed renew
  dropped_iff level now draw s =
      (λ h. (ground arith, ground arith, ground arith, ground arith), λ h. ground (arith, h))
