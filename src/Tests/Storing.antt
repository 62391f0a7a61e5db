-- ===== src/Tests/Storing.antt =====
-- The backend of internal/storage/memory.go on two people and a company.
use Prim.Native.Char.{Char}
use mathlib.Core.List.{Mem}
use mcp_memory_core.Base.{List, ◌≡◌, inl, inr, ◌↔◌, ◌⊎◌, refl, none, some, [], ◌∷◌, All}
use mcp_memory_core.Base.Text.{
  contains, has_prefix, to_lower, lower_char, trim_space, trim_left, trim_right, is_space,
}
use mcp_memory_core.Base.Dict.{lookup, insert}
use mcp_memory_core.Errors.{GoError, app, new}
use mcp_memory_core.Errors.Codes.{entity_already_exists}
use mcp_memory_core.Storage.{last_with, Entity, Ctx, ok}
use mcp_memory_core.Storage.Memory.{
  MemoryBackend, store, create_entities, search_entities, search, matches, contains_ignore_case,
  validate, is_blank,
}
use mcp_memory_core.Storage.Memory.Create.{
  or_else, IsFresh, IsValid, create_atomic, create_succeeds_iff, lookup-create,
}
use mcp_memory_core.Storage.Memory.Search.{IsHit, Mentions, search_complete, search_sound}
use mcp_memory_core.Storage.Memory.Lawful.{IsEntityMap, memory_backend-Implements}

abbrev id_char : Char → Char
id_char c = c

abbrev ann : Entity
ann = record {
  id = "1";
  name = "Ann";
  entity_type = "person";
  observations = "Likes tea" ∷ [];
  created_at = 5;
  updated_at = 5;
}

abbrev bob : Entity
bob = record {
  id = "2";
  name = "Bob";
  entity_type = "person";
  observations = [];
  created_at = 6;
  updated_at = 6;
}

abbrev acme : Entity
acme = record {
  id = "3";
  name = "Acme";
  entity_type = "company";
  observations = [];
  created_at = 7;
  updated_at = 7;
}

abbrev live_ctx : Ctx
live_ctx n = none

abbrev two_people : MemoryBackend
two_people = record { entities = ("1", ann) ∷ ("2", bob) ∷ [] }

two_people-IsValid : IsValid two_people
unfolding lookup is_blank trim_space trim_left trim_right is_space
two_people-IsValid = record { unique = (refl, (refl, tt)); keyed = (refl, refl, (refl, refl, tt)) }

memory_backend-Implements_example : IsEntityMap id_char
memory_backend-Implements_example = memory_backend-Implements id_char

three : MemoryBackend
three = record { entities = ("1", ann) ∷ ("2", bob) ∷ ("3", acme) ∷ [] }

acme_accepted : create_entities two_people live_ctx (acme ∷ []) ≡ (three, none)
unfolding create_entities validate is_blank trim_space trim_left trim_right is_space lookup insert
    three store
acme_accepted = refl

lookup-create_example :
    lookup "3" three.entities ≡ or_else (last_with "3" (acme ∷ [])) (lookup "3" two_people.entities)
lookup-create_example = lookup-create two_people three live_ctx (acme ∷ []) "3" acme_accepted

-- The second entity's ID is taken.
taken : GoError
taken = app (new entity_already_exists "Entity with ID '2' already exists")

acme_refused : create_entities two_people live_ctx (acme ∷ bob ∷ []) ≡ (two_people, some taken)
unfolding create_entities validate is_blank trim_space trim_left trim_right is_space lookup taken
    new
acme_refused = refl

create_atomic_example : two_people ≡ two_people
create_atomic_example =
    create_atomic two_people two_people live_ctx (acme ∷ bob ∷ []) taken acme_refused

create_succeeds_iff_example :
    ((create_entities two_people live_ctx (acme ∷ [])).1 ≡ none)
    ↔ (((acme ∷ []) ≡ []) ⊎ ((live_ctx 0 ≡ none) × All (IsFresh two_people.entities) (acme ∷ [])))
create_succeeds_iff_example = create_succeeds_iff two_people live_ctx (acme ∷ [])

ann_at_1 : lookup "1" two_people.entities ≡ some ann
unfolding lookup
ann_at_1 = refl

-- Ann likes tea.
ann-Mentions_tea : Mentions id_char "TEA" ann
unfolding to_lower lower_char
ann-Mentions_tea = inr (inl ("likes ", "", refl))

only_ann : search_entities id_char two_people live_ctx "TEA" ≡ ok (ann ∷ [])
unfolding search_entities search matches contains_ignore_case contains has_prefix to_lower
    lower_char
only_ann = refl

search_sound_example : All (IsHit id_char "TEA" two_people.entities) (ann ∷ [])
search_sound_example =
    search_sound id_char "TEA" two_people live_ctx (ann ∷ []) two_people-IsValid only_ann

search_complete_example :
    (es : List Entity) × (search_entities id_char two_people live_ctx "TEA" ≡ ok es) × Mem ann es
search_complete_example =
    search_complete id_char "TEA" "1" two_people live_ctx ann refl ann_at_1 ann-Mentions_tea
