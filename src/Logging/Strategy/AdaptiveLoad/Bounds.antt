-- ===== src/Logging/Strategy/AdaptiveLoad/Bounds.antt =====
-- The rate of an AdaptiveLoadSamplingStrategy (pkg/logging/sampling_strategies.go) and its bounds.
use mcp_memory_core.Base.{
  ℕ, ◌≡◌, refl, inl, inr, Bool, true, false, List, [], ◌∷◌, Bool-cases, if◌then◌else◌,
}
use mcp_memory_core.Base.Float.{Floats, max, min}
use mcp_memory_core.Logging.Strategy.{Call, AdaptiveLoadConfig, zero_float}
use mcp_memory_core.Logging.Strategy.AdaptiveLoad.{
  AdaptiveLoad, should_sample, adjusted_rate, adjust_rate, is_stressed, reset, is_recent,
}

-- What IEEE 754 gives for numbers that are not NaN.
pub record IsOrdered {F : Type 0} (fl : Floats F) : Type 0 where
  pub leq_refl : (x : F) → fl.leq x x ≡ true
  pub leq_trans : (x y z : F) → fl.leq x y ≡ true → fl.leq y z ≡ true → fl.leq x z ≡ true
  pub leq_of_less : (x y : F) → fl.less x y ≡ true → fl.leq x y ≡ true
  pub shrinks :
      (x : F) → fl.leq (zero_float fl) x ≡ true → fl.leq (fl.mul x (fl.ratio 8 10)) x ≡ true
  pub grows :
      (x : F) → fl.leq (zero_float fl) x ≡ true → fl.leq x (fl.mul x (fl.ratio 11 10)) ≡ true

-- What can be called on the strategy, but for UpdateConfig.
pub data Use (F : Type 0) : Type 0 where
  sampling : Call F → Use F
  adjusting : (now : ℕ) (load memory : F) → Use F
  resetting : Use F

module _ {F : Type 0} (fl : Floats F) where
  unfoldable pub use_once : Use F → AdaptiveLoad F → AdaptiveLoad F
  unfolding should_sample adjust_rate reset
  use_once (sampling c) a = (should_sample fl c a).0
  use_once (adjusting now load memory) a = adjust_rate fl now load memory a
  use_once resetting a = reset fl a

  unfoldable pub use_all : List (Use F) → AdaptiveLoad F → AdaptiveLoad F
  unfolding use_once
  use_all [] a = a
  use_all (u ∷ us) a = use_all us (use_once u a)

-- The bounds of the configuration are numbers from 0 on, in order, with the first rate between.
pub record IsConfigured {F : Type 0} (fl : Floats F) (cfg : AdaptiveLoadConfig F) : Type 0 where
  pub positive : fl.leq (zero_float fl) cfg.min_rate ≡ true
  pub initial_above : fl.leq cfg.min_rate cfg.initial_rate ≡ true
  pub initial_below : fl.leq cfg.initial_rate cfg.max_rate ≡ true

-- The rate lies between the bounds of the configuration.
pub record IsWithin {F : Type 0} (fl : Floats F) (cfg : AdaptiveLoadConfig F) (rate : F)
    : Type 0 where
  pub above : fl.leq cfg.min_rate rate ≡ true
  pub below : fl.leq rate cfg.max_rate ≡ true

module _ {F : Type 0} (fl : Floats F) (o : IsOrdered fl) where
  lowered-IsWithin :
      (cfg : AdaptiveLoadConfig F) (rate : F)
      → IsConfigured fl cfg
      → IsWithin fl cfg rate
      → IsWithin fl cfg (max fl (fl.mul rate (fl.ratio 8 10)) cfg.min_rate)
  unfolding max
  lowered-IsWithin cfg rate k v =
      let x = fl.mul rate (fl.ratio 8 10) in
      let shrunk = o.shrinks rate (o.leq_trans _ _ _ k.positive v.above) in
      elim (Bool-cases (fl.less cfg.min_rate x)) [
        | inl over ↦
            rw over
              (record { above = o.leq_of_less _ _ over; below = o.leq_trans _ _ _ shrunk v.below })
        | inr under ↦
            rw under (record {
              above = o.leq_refl cfg.min_rate;
              below = o.leq_trans _ _ _ v.above v.below;
            })
      ]

  raised-IsWithin :
      (cfg : AdaptiveLoadConfig F) (rate : F)
      → IsConfigured fl cfg
      → IsWithin fl cfg rate
      → IsWithin fl cfg (min fl (fl.mul rate (fl.ratio 11 10)) cfg.max_rate)
  unfolding min
  raised-IsWithin cfg rate k v =
      let x = fl.mul rate (fl.ratio 11 10) in
      let grown = o.grows rate (o.leq_trans _ _ _ k.positive v.above) in
      elim (Bool-cases (fl.less x cfg.max_rate)) [
        | inl under ↦
            rw under
              (record { above = o.leq_trans _ _ _ v.above grown; below = o.leq_of_less _ _ under })
        | inr over ↦
            rw over (record {
              above = o.leq_trans _ _ _ v.above v.below;
              below = o.leq_refl cfg.max_rate;
            })
      ]

  adjusted-IsWithin :
      (load memory : F) (a : AdaptiveLoad F)
      → IsConfigured fl a.config
      → IsWithin fl a.config a.current_rate
      → IsWithin fl a.config (adjusted_rate fl load memory a)
  unfolding adjusted_rate
  adjusted-IsWithin load memory a k v = elim (Bool-cases (is_stressed fl load memory a.config)) [
    | inl stress ↦ rw stress (lowered-IsWithin a.config a.current_rate k v)
    | inr calm ↦ rw calm (raised-IsWithin a.config a.current_rate k v)
  ]

  -- The configuration has not changed and the rate lies between its bounds.
  record IsKept (cfg : AdaptiveLoadConfig F) (a : AdaptiveLoad F) : Type 0 where
    pub configured : a.config ≡ cfg
    pub within : IsWithin fl a.config a.current_rate

  if-IsKept :
      (cfg : AdaptiveLoadConfig F) (b : Bool) (x y : AdaptiveLoad F)
      → IsKept cfg x
      → IsKept cfg y
      → IsKept cfg (if b then x else y)
  if-IsKept cfg true x y v w = v
  if-IsKept cfg false x y v w = w

  use_once-IsKept :
      (cfg : AdaptiveLoadConfig F) (u : Use F) (a : AdaptiveLoad F)
      → IsConfigured fl cfg
      → IsKept cfg a
      → IsKept cfg (use_once fl u a)
  unfolding use_once should_sample adjust_rate reset
  use_once-IsKept cfg (sampling c) a k v = record { configured = v.configured; within = v.within }
  use_once-IsKept cfg (adjusting now load memory) a k v =
      let k' : IsConfigured fl a.config = rw v.configured k in
      let w = adjusted-IsWithin load memory a k' v.within in
      if-IsKept cfg (is_recent now a.last_adjust a.config.adjustment_interval) a _ v (
        if-IsKept cfg (fl.eq (adjusted_rate fl load memory a) a.current_rate) _ _
          (record { configured = v.configured; within = w })
          (record { configured = v.configured; within = w }))
  use_once-IsKept cfg resetting a k v =
      let k' : IsConfigured fl a.config = rw v.configured k in
      record {
        configured = v.configured;
        within = record { above = k'.initial_above; below = k'.initial_below };
      }

  use_all-IsKept :
      (cfg : AdaptiveLoadConfig F) (us : List (Use F)) (a : AdaptiveLoad F)
      → IsConfigured fl cfg
      → IsKept cfg a
      → IsKept cfg (use_all fl us a)
  unfolding use_all
  use_all-IsKept cfg [] a k v = v
  use_all-IsKept cfg (u ∷ us) a k v =
      use_all-IsKept cfg us (use_once fl u a) k (use_once-IsKept cfg u a k v)

  -- Under any sequence of calls, adjustments and resets, the rate never leaves the bounds of the
  -- configuration, if they are in order with 0 and the initial rate, if the rate lies between them at
  -- first, and if the numbers are ordered as those of IEEE 754 other than NaN.
  pub rate-IsWithin :
      (us : List (Use F)) (a : AdaptiveLoad F)
      → IsConfigured fl a.config
      → IsWithin fl a.config a.current_rate
      → IsWithin fl a.config (use_all fl us a).current_rate
  rate-IsWithin us a k v =
      let w = use_all-IsKept a.config us a k (record { configured = refl; within = v }) in
      rw w.configured at w.within
