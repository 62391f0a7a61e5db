-- ===== src/Tests/Calling.antt =====
-- The tools of internal/knowledge/manager.go over the in-memory backend.
use Prim.Native.Char.{Char}
use mcp_memory_core.Base.{◌≡◌, refl, none, some, [], ◌∷◌}
use mcp_memory_core.Base.Text.{trim_space, trim_left, trim_right, is_space}
use mcp_memory_core.Base.Dict.{lookup, insert}
use mcp_memory_core.Base.Json.{null, str, array, empty, item, Fields, no_fields, field, get}
use mcp_memory_core.Errors.{app, required}
use mcp_memory_core.Storage.{Entity, Ctx, ok, err, Backend, last_with, SameContent}
use mcp_memory_core.Storage.Memory.{
  memory_backend, new_memory_backend, create_entities, search_entities, search, get_entity,
  validate, is_blank, store,
}
use mcp_memory_core.Storage.Memory.Lawful.{memory_laws}
use mcp_memory_core.Knowledge.{
  Env, found, created, entity, encoded, marshals, encodes, poll, string_arg, as_string,
  entities_arg, as_array, complete, prepare,
}
use mcp_memory_core.Knowledge.Manager.{
  Manager, handle_call_tool, handle_create_entities, handle_search, handle_get_entity, create_batch,
  store_entities,
}
use mcp_memory_core.Knowledge.Tools.{create_then_get}

abbrev id_char : Char → Char
id_char c = c

abbrev memory : Backend
memory = memory_backend id_char

abbrev live_ctx : Ctx
live_ctx n = none

-- Every raw entity decodes to one with neither an ID nor times.
abbrev raw : Entity
raw = record {
  id = "";
  name = "Ann";
  entity_type = "person";
  observations = [];
  created_at = 0;
  updated_at = 0;
}

abbrev env : Env
env = record { decode = λ v. ok raw; uuid = λ i. "a1"; now = 9 }

-- What the raw entity is completed to.
abbrev ann : Entity
ann = record raw { id = "a1"; created_at = 9; updated_at = 9 }

abbrev fresh : Manager memory
unfolding memory_backend
fresh = record { storage = new_memory_backend; audit = some [] }

abbrev one_entity : Fields
one_entity = field "entities" (array (item null empty)) no_fields

abbrev by_id : Fields
by_id = field "id" (str "a1") no_fields

missing_entities :
    (handle_call_tool memory env live_ctx "memory__create_entities" no_fields fresh).1
    ≡ err (app (required "entities"))
unfolding handle_call_tool handle_create_entities create_batch poll entities_arg as_array get
    required
missing_entities = refl

batch : create_batch memory env live_ctx one_entity ≡ ok (ann ∷ [])
unfolding create_batch poll entities_arg as_array get prepare complete
batch = refl

made : (handle_create_entities memory env live_ctx one_entity fresh).1 ≡ ok (created 1)
unfolding handle_create_entities store_entities memory_backend create_entities validate is_blank
    trim_space trim_left trim_right is_space lookup encoded marshals create_batch poll entities_arg
    as_array get prepare complete
made = refl

got :
    handle_get_entity memory live_ctx by_id
      (handle_create_entities memory env live_ctx one_entity fresh).0
    ≡ ok (entity (some ann))
unfolding handle_get_entity string_arg as_string get_entity handle_create_entities store_entities
    memory_backend create_entities validate is_blank trim_space trim_left trim_right is_space lookup
    insert store encoded marshals encodes create_batch poll entities_arg as_array get prepare
    complete
got = refl

asked : string_arg "id" by_id ≡ ok "a1"
unfolding string_arg as_string get
asked = refl

last : last_with "a1" (ann ∷ []) ≡ some ann
unfolding last_with
last = refl

create_then_get_example : (x : Entity) × (entity (some ann) ≡ entity (some x)) × SameContent x ann
create_then_get_example =
    create_then_get memory (memory_laws id_char) env live_ctx live_ctx one_entity by_id fresh
      (created 1) (entity (some ann)) (ann ∷ []) "a1" ann made batch last asked got

fresh_valid : (memory_laws id_char).Inv fresh.storage
unfolding memory_laws fresh memory_backend
fresh_valid = record { unique = tt; keyed = tt }

abbrev by_query : Fields
by_query = field "query" (str "ann") no_fields

query_given : string_arg "query" by_query ≡ ok "ann"
unfolding string_arg as_string get
query_given = refl

nothing_found : handle_search memory live_ctx by_query fresh ≡ ok (found [] 0)
unfolding handle_search string_arg as_string get fresh memory_backend search_entities search poll
    encoded marshals
nothing_found = refl
