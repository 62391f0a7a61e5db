-- ===== src/Tests/Levels.antt =====
-- The level table of pkg/logging/level.go.
use mcp_memory_core.Base.{
  ◌≡◌, refl, sym, ◌∙◌, inl, inr, Bool-cases, eq_of_test, subst, String, ◌==◌, true, false, some, [],
  ◌∷◌,
}
use mcp_memory_core.Base.Int.{ℤ, pos, neg}
use mcp_memory_core.Base.Dict.{NodupKeys, lookup}
use mcp_memory_core.Base.Text.{contains, has_prefix}
use mcp_memory_core.Logging.Level.{LevelHandler, is_under, trim_star}
use mcp_memory_core.Logging.Level.Order.{Covers, Agrees}

abbrev one_order : LevelHandler
one_order = record {
  default_level = pos 0;
  component_levels = ("storage*", pos 8) ∷ ("transport.http", neg 4) ∷ [];
}

abbrev other_order : LevelHandler
other_order = record {
  default_level = pos 0;
  component_levels = ("transport.http", neg 4) ∷ ("storage*", pos 8) ∷ [];
}

one_nodup : NodupKeys one_order.component_levels
unfolding lookup
one_nodup = (refl, (refl, tt))

other_nodup : NodupKeys other_order.component_levels
unfolding lookup
other_nodup = (refl, (refl, tt))

same_levels :
    (k : String) → lookup k one_order.component_levels ≡ lookup k other_order.component_levels
unfolding lookup
same_levels k = elim (Bool-cases ("storage*" == k)) [
  | inl first ↦
      subst (λ j. lookup j one_order.component_levels ≡ lookup j other_order.component_levels)
        (eq_of_test "storage*" k first) refl
  | inr later ↦ rw later refl
]

http_is_no_storage : is_under "storage.memory" "transport.http" ≡ false
unfolding is_under trim_star contains has_prefix
http_is_no_storage = refl

only_storage :
    (p : String) (a : ℤ) → Covers "storage.memory" one_order.component_levels p a → a ≡ pos 8
unfolding lookup
only_storage p a (held, under) = elim (Bool-cases ("storage*" == p)) [
  | inl first ↦ let found : some (pos 8) ≡ some a = rw first at held in cc found
  | inr later ↦ elim (Bool-cases ("transport.http" == p)) [
    | inl second ↦ absurd (
        cc (
          http_is_no_storage,
          subst (λ q. is_under "storage.memory" q ≡ true)
              (sym (eq_of_test "transport.http" p second)) under,
        ))
    | inr missing ↦ absurd (cc (rw (later, missing) at held))
  ]
]

agrees : Agrees "storage.memory" one_order.component_levels
agrees p q a b cover cover' = only_storage p a cover ∙ sym (only_storage q b cover')
