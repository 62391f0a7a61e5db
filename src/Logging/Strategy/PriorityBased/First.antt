-- ===== src/Logging/Strategy/PriorityBased/First.antt =====
-- Which rule of a PriorityBasedSamplingStrategy decides (pkg/logging/sampling_strategies.go).
use mcp_memory_core.Base.{
  ◌≡◌, ◌↔◌, refl, inl, inr, true, List, [], ◌∷◌, arith, Bool-cases, all, not, map,
}
use mathlib.Core.List.{◌++◌}
use mcp_memory_core.Base.Int.{ℤ}
use mcp_memory_core.Base.Float.{Floats}
use mcp_memory_core.Logging.Strategy.{Call, PrioritySamplingRule}
use mcp_memory_core.Logging.Strategy.PriorityBased.{keeps, matches_rule, rule_keeps}

-- The first rule that the record matches, in the order in which the rules are configured, keeps it.
pub record IsKeptFirst {F : Type 0} (fl : Floats F) (rules : List (PrioritySamplingRule F))
    (c : Call F) : Type 0 where
  pub before : List (PrioritySamplingRule F)
  pub rule : PrioritySamplingRule F
  pub after : List (PrioritySamplingRule F)
  pub position : rules ≡ before ++ (rule ∷ after)
  pub unmatched : all (λ r. not (matches_rule fl r c)) before ≡ true
  pub matched : matches_rule fl rule c ≡ true
  pub kept : rule_keeps fl rule c ≡ true

module _ {F : Type 0} (fl : Floats F) where
  kept_first :
      (rules : List (PrioritySamplingRule F)) (c : Call F)
      → keeps fl rules c ≡ true
      → IsKeptFirst fl rules c
  unfolding keeps
  kept_first [] c h = absurd (cc h)
  kept_first (r ∷ rs) c h = elim (Bool-cases (matches_rule fl r c)) [
    | inl hit ↦ record {
      before = [];
      rule = r;
      after = rs;
      position = refl;
      unmatched = refl;
      matched = hit;
      kept = ground (arith, h, hit);
    }
    | inr miss ↦
        let v = kept_first rs c (ground (arith, h, miss)) in
        record {
          before = r ∷ v.before;
          rule = v.rule;
          after = v.after;
          position = cc v.position;
          unmatched = rw (miss, v.unmatched) refl;
          matched = v.matched;
          kept = v.kept;
        }
  ]

  first_keeps :
      (before : List (PrioritySamplingRule F)) (rule : PrioritySamplingRule F)
      (after : List (PrioritySamplingRule F)) (c : Call F)
      → all (λ r. not (matches_rule fl r c)) before ≡ true
      → matches_rule fl rule c ≡ true
      → rule_keeps fl rule c ≡ true
      → keeps fl (before ++ (rule ∷ after)) c ≡ true
  unfolding keeps
  first_keeps [] rule after c miss hit kept = rw (hit, kept) refl
  first_keeps (r ∷ rs) rule after c miss hit kept =
      ground (arith, miss, first_keeps rs rule after c)

  -- A record is kept exactly if some rule matches it and the first such rule, in the order in which
  -- the rules are configured, keeps it; a record that no rule matches is dropped.
  pub keeps_iff :
      (rules : List (PrioritySamplingRule F)) (c : Call F)
      → (keeps fl rules c ≡ true) ↔ IsKeptFirst fl rules c
  keeps_iff rules c = (
    kept_first rules c,
    λ v. rw v.position (first_keeps v.before v.rule v.after c v.unmatched v.matched v.kept),
  )

  -- The field Priority plays no part: whatever numbers the rules carry, the same records are kept.
  pub keeps-map :
      (renumber : PrioritySamplingRule F → ℤ) (rules : List (PrioritySamplingRule F)) (c : Call F)
      → keeps fl (map (λ (r : PrioritySamplingRule F). record r { priority = renumber r }) rules) c
        ≡ keeps fl rules c
  unfolding keeps matches_rule rule_keeps
  keeps-map renumber [] c = refl
  keeps-map renumber (r ∷ rs) c = rw (keeps-map renumber rs c)
