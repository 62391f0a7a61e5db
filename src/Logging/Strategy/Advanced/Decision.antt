-- ===== src/Logging/Strategy/Advanced/Decision.antt =====
-- Which strategy decides in an AdvancedSampler (pkg/logging/sampling_strategies.go).
use mcp_memory_core.Base.{
  ℕ, zero, suc, ◌+◌, ◌≡◌, refl, ap, ◌∙◌, Bool, true, false, not, ◌||◌, inl, inr, Option, none, some,
  List, [], ◌∷◌, map, eqb, arith, Bool-cases, if◌then◌else◌,
}
use mcp_memory_core.Base.Float.{Floats}
use mcp_memory_core.Logging.Strategy.{Call, PrioritySamplingRule}
use mcp_memory_core.Logging.Strategy.PriorityBased as Priority
use mcp_memory_core.Logging.Strategy.Advanced.{
  AdvancedSamplingConfig, AdvancedSampler, Event, sampling, adjusting, new_advanced_sampler,
  has_rules, sample_at, override_all, should_sample, adjust_sampling_rates, step, run,
}
use mcp_memory_core.Logging.Strategy.Advanced.Kinds.{
  Strategy, fixed_rate, adaptive_load, priority_based, tail_based, is_priority_based, sample_by,
  adjust,
}

-- No strategy but the one at the default position can override, where `i` is the position of the first.
abbrev pub IsSole : {F : Type 0} → ℕ → ℕ → List (Strategy F) → Type 0
IsSole i d [] = Unit
IsSole i d (s ∷ ss) = (eqb i d || not (is_priority_based s) ≡ true) × IsSole (i + 1) d ss

-- The rules of a priority-based strategy, at a position of the list.
abbrev rules_of : {F : Type 0} → Strategy F → Option (List (PrioritySamplingRule F))
rules_of (fixed_rate f) = none
rules_of (adaptive_load a) = none
rules_of (priority_based p) = some p.rules
rules_of (tail_based t) = none

rules_at : {F : Type 0} → ℕ → List (Strategy F) → Option (List (PrioritySamplingRule F))
rules_at i [] = none
rules_at zero (s ∷ ss) = rules_of s
rules_at (suc i) (s ∷ ss) = rules_at i ss

module _ {F : Type 0} (fl : Floats F) where
  sample_by_kind :
      (c : Call F) (s : Strategy F) → is_priority_based (sample_by fl c s).0 ≡ is_priority_based s
  unfolding is_priority_based sample_by
  sample_by_kind c (fixed_rate f) = refl
  sample_by_kind c (adaptive_load a) = refl
  sample_by_kind c (priority_based p) = refl
  sample_by_kind c (tail_based t) = refl

  sample_by_rules : (c : Call F) (s : Strategy F) → rules_of (sample_by fl c s).0 ≡ rules_of s
  unfolding sample_by Priority.should_sample
  sample_by_rules c (fixed_rate f) = refl
  sample_by_rules c (adaptive_load a) = refl
  sample_by_rules c (priority_based p) = refl
  sample_by_rules c (tail_based t) = refl

  adjust_kind :
      (now : ℕ) (load memory : F) (s : Strategy F)
      → is_priority_based (adjust fl now load memory s) ≡ is_priority_based s
  unfolding is_priority_based adjust
  adjust_kind now load memory (fixed_rate f) = refl
  adjust_kind now load memory (adaptive_load a) = refl
  adjust_kind now load memory (priority_based p) = refl
  adjust_kind now load memory (tail_based t) = refl

  adjust_rules :
      (now : ℕ) (load memory : F) (s : Strategy F)
      → rules_of (adjust fl now load memory s) ≡ rules_of s
  unfolding adjust
  adjust_rules now load memory (fixed_rate f) = refl
  adjust_rules now load memory (adaptive_load a) = refl
  adjust_rules now load memory (priority_based p) = refl
  adjust_rules now load memory (tail_based t) = refl

  sample_at-IsSole :
      (i d k : ℕ) (c : Call F) (ss : List (Strategy F))
      → IsSole i d ss
      → IsSole i d (sample_at fl k c ss).0
  unfolding sample_at
  sample_at-IsSole i d k c [] h = tt
  sample_at-IsSole i d zero c (s ∷ ss) h = (rw (sample_by_kind c s) h.0, h.1)
  sample_at-IsSole i d (suc k) c (s ∷ ss) h = (h.0, sample_at-IsSole (i + 1) d k c ss h.1)

  override_all-IsSole :
      (i d : ℕ) (c : Call F) (kept : Bool) (ss : List (Strategy F))
      → IsSole i d ss
      → IsSole i d (override_all fl i d c kept ss).0
  unfolding override_all
  override_all-IsSole i d c kept [] h = tt
  override_all-IsSole i d c kept (s ∷ ss) h = elim (Bool-cases (eqb i d)) [
    | inl same ↦ rw same (h.0, override_all-IsSole (i + 1) d c kept ss h.1)
    | inr other ↦ rw other (
      rw (sample_by_kind c s) h.0,
      override_all-IsSole (i + 1) d c (if is_priority_based s then (sample_by fl c s).1 else kept)
          ss h.1,
    )
  ]

  -- Where no other strategy can override, the decision stands.
  override_all_keeps :
      (i d : ℕ) (c : Call F) (kept : Bool) (ss : List (Strategy F))
      → IsSole i d ss
      → (override_all fl i d c kept ss).1 ≡ kept
  unfolding override_all
  override_all_keeps i d c kept [] h = refl
  override_all_keeps i d c kept (s ∷ ss) h =
      ground (arith, h.0, override_all_keeps (i + 1) d c kept ss h.1)

  sample_at_rules :
      (i k : ℕ) (c : Call F) (ss : List (Strategy F))
      → rules_at i (sample_at fl k c ss).0 ≡ rules_at i ss
  unfolding sample_at rules_at
  sample_at_rules i k c [] = refl
  sample_at_rules zero zero c (s ∷ ss) = sample_by_rules c s
  sample_at_rules (suc i) zero c (s ∷ ss) = refl
  sample_at_rules zero (suc k) c (s ∷ ss) = refl
  sample_at_rules (suc i) (suc k) c (s ∷ ss) = sample_at_rules i k c ss

  override_all_rules :
      (k i d : ℕ) (c : Call F) (kept : Bool) (ss : List (Strategy F))
      → rules_at k (override_all fl i d c kept ss).0 ≡ rules_at k ss
  unfolding override_all rules_at
  override_all_rules k i d c kept [] = refl
  override_all_rules zero i d c kept (s ∷ ss) = ground (arith, sample_by_rules c s)
  override_all_rules (suc k) i d c kept (s ∷ ss) = ground (
    arith,
    override_all_rules k (i + 1) d c kept ss,
    override_all_rules k (i + 1) d c (if is_priority_based s then (sample_by fl c s).1 else kept)
        ss,
  )

  adjust_all_rules :
      (k now : ℕ) (load memory : F) (ss : List (Strategy F))
      → rules_at k (map (adjust fl now load memory) ss) ≡ rules_at k ss
  unfolding rules_at
  adjust_all_rules k now load memory [] = refl
  adjust_all_rules zero now load memory (s ∷ ss) = adjust_rules now load memory s
  adjust_all_rules (suc k) now load memory (s ∷ ss) = adjust_all_rules k now load memory ss

  adjust_all-IsSole :
      (i d now : ℕ) (load memory : F) (ss : List (Strategy F))
      → IsSole i d ss
      → IsSole i d (map (adjust fl now load memory) ss)
  adjust_all-IsSole i d now load memory [] h = tt
  adjust_all-IsSole i d now load memory (s ∷ ss) h =
      (rw (adjust_kind now load memory s) h.0, adjust_all-IsSole (i + 1) d now load memory ss h.1)

  sample_at_decides :
      (k : ℕ) (c : Call F) (ss : List (Strategy F)) (rules : List (PrioritySamplingRule F))
      → rules_at k ss ≡ some rules
      → (sample_at fl k c ss).1 ≡ Priority.keeps fl rules c
  unfolding sample_at rules_at sample_by Priority.should_sample
  sample_at_decides k c [] rules h = absurd (cc h)
  sample_at_decides zero c (fixed_rate f ∷ ss) rules h = absurd (cc h)
  sample_at_decides zero c (adaptive_load a ∷ ss) rules h = absurd (cc h)
  sample_at_decides zero c (priority_based p ∷ ss) rules h =
      let e : p.rules ≡ rules = cc h in ap (λ rs. Priority.keeps fl rs c) e
  sample_at_decides zero c (tail_based t ∷ ss) rules h = absurd (cc h)
  sample_at_decides (suc k) c (s ∷ ss) rules h = sample_at_decides k c ss rules h

  -- The rules of the configuration stand in the default strategy, and no other can override it.
  record IsRuled (config : AdvancedSamplingConfig F) (a : AdvancedSampler F) : Type 0 where
    configured : a.config ≡ config
    sole : IsSole 0 a.default_strategy a.strategies
    ruled : rules_at a.default_strategy a.strategies ≡ some config.priority_rules

  new-IsRuled :
      (config : AdvancedSamplingConfig F)
      → has_rules config.priority_rules ≡ true
      → IsRuled config (new_advanced_sampler fl config)
  unfolding new_advanced_sampler rules_at is_priority_based
  new-IsRuled config h = ground (arith, h)

  if-IsRuled :
      (config : AdvancedSamplingConfig F) (b : Bool) (x y : AdvancedSampler F × Bool)
      → IsRuled config x.0
      → IsRuled config y.0
      → IsRuled config (if b then x else y).0
  if-IsRuled config true x y v w = v
  if-IsRuled config false x y v w = w

  call-IsRuled :
      (config : AdvancedSamplingConfig F) (c : Call F) (a : AdvancedSampler F)
      → IsRuled config a
      → IsRuled config (should_sample fl c a).0
  unfolding should_sample
  call-IsRuled config c a v =
      let d = a.default_strategy in
      let at = sample_at fl d c a.strategies in
      if-IsRuled config (not a.config.enabled) (a, true) _ v
        (record {
          configured = v.configured;
          sole = override_all-IsSole 0 d c at.1 at.0 (sample_at-IsSole 0 d d c a.strategies v.sole);
          ruled =
              override_all_rules d 0 d c at.1 at.0 ∙ sample_at_rules d d c a.strategies ∙ v.ruled;
        })

  step-IsRuled :
      (config : AdvancedSamplingConfig F) (e : Event F) (a : AdvancedSampler F)
      → IsRuled config a
      → IsRuled config (step fl e a)
  unfolding step adjust_sampling_rates
  step-IsRuled config (sampling c) a v = call-IsRuled config c a v
  step-IsRuled config (adjusting now load memory) a v = record {
    configured = v.configured;
    sole = adjust_all-IsSole 0 a.default_strategy now load memory a.strategies v.sole;
    ruled = adjust_all_rules a.default_strategy now load memory a.strategies ∙ v.ruled;
  }

  run-IsRuled :
      (config : AdvancedSamplingConfig F) (es : List (Event F)) (a : AdvancedSampler F)
      → IsRuled config a
      → IsRuled config (run fl es a)
  unfolding run
  run-IsRuled config [] a v = v
  run-IsRuled config (e ∷ es) a v = run-IsRuled config es (step fl e a) (step-IsRuled config e a v)

  ruled_decides :
      (config : AdvancedSamplingConfig F) (c : Call F) (a : AdvancedSampler F)
      → config.enabled ≡ true
      → IsRuled config a
      → (should_sample fl c a).1 ≡ Priority.keeps fl config.priority_rules c
  unfolding should_sample
  ruled_decides config c a on v =
      let d = a.default_strategy in
      let at = sample_at fl d c a.strategies in
      rw (v.configured, on)
        (override_all_keeps 0 d c at.1 at.0 (sample_at-IsSole 0 d d c a.strategies v.sole)
          ∙ sample_at_decides d c a.strategies config.priority_rules v.ruled)

  -- Whatever calls and adjustments came before, an enabled sampler that was configured with priority
  -- rules keeps exactly the records that its rules alone keep: neither the other strategies that the
  -- configuration switches on nor the load change a decision.
  pub rules_decide :
      (config : AdvancedSamplingConfig F) (es : List (Event F)) (c : Call F)
      → config.enabled ≡ true
      → has_rules config.priority_rules ≡ true
      → (should_sample fl c (run fl es (new_advanced_sampler fl config))).1
        ≡ Priority.keeps fl config.priority_rules c
  rules_decide config es c on h =
      ruled_decides config c (run fl es (new_advanced_sampler fl config)) on
        (run-IsRuled config es (new_advanced_sampler fl config) (new-IsRuled config h))
