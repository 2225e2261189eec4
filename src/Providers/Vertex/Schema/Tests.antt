-- ===== src/Providers/Vertex/Schema/Tests.antt =====
-- `_sanitize_schema` of openai_compatible_bridge/providers/vertex.py on a schema whose definition
-- refers to itself.
use openai_compatible_bridge.Prelude.{Bool, ◌≡◌, refl}
use openai_compatible_bridge.Prelude.Result.{ok, err}
use openai_compatible_bridge.Json.{Value, Fields, str, dict, bool, end, field}
use openai_compatible_bridge.Providers.Vertex.Schema.{
  no_mapping, set, merge, without, is_among, target_name, after_slash, plan, each_field, each_value,
  sanitize_schema_node, depth, unseen, definitions_of, sanitize_schema,
}
use openai_compatible_bridge.Providers.Vertex.Schema.Done.{IsClean, Done, sanitize_schema-Done}

abbrev reference : Fields
reference = field "$ref" (str "#/$defs/Node") end

-- A node with a field `next`, which is a node.
abbrev circular : Value
circular = dict (
    field "$ref" (str "#/$defs/Node") (
      field "$defs"
        (dict (
          field "Node"
            (dict (
              field "type" (str "object")
                (field "properties" (dict (field "next" (dict reference) end)) end)))
            end))
        end))

abbrev flat : Value
flat =
    dict (field "type" (str "object") (field "properties" (dict (field "next" (dict end) end)) end))

circular_test : sanitize_schema circular ≡ ok flat
unfolding sanitize_schema sanitize_schema_node definitions_of unseen depth each_field each_value
    plan target_name after_slash is_among without merge set openai_compatible_bridge.Json.get
circular_test = refl

-- A definition that is `true`, which a JSON schema may hold, is no mapping.
boolean_test :
    sanitize_schema (
      dict (
        field "$ref"
          (str "#/$defs/Any")
          (field "$defs" (dict (field "Any" (bool Bool.true) end)) end)))
    ≡ err no_mapping
unfolding sanitize_schema sanitize_schema_node definitions_of unseen depth each_field each_value
    plan target_name after_slash is_among without merge set openai_compatible_bridge.Json.get
boolean_test = refl

sanitize_schema-Done_example : Done IsClean (sanitize_schema circular)
sanitize_schema-Done_example = sanitize_schema-Done circular
