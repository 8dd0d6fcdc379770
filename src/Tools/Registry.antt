-- ===== src/Tools/Registry.antt =====
-- app/tools/registry.py: the tools by step name, the flags that gate them, and their schemas.
--
-- A tool and a schema are values of any type: the registry only stores them. Registering under a
-- known name replaces the tool.
use makkays_chatbot.Prelude.{
  String, List, [], Bool, true, Option, none, some, Dict, lookup, insert, if◌then◌else◌, map, keep,
}
use makkays_chatbot.Flags.Schemas.{FeatureFlags, get_attr}

pub record ToolRegistry (Tool Schema : Type 0) : Type 0 where
  pub tools : Dict Tool
  pub flag_gates : Dict String
  pub llm_schemas : Dict Schema

abbrev insert_if : {V : Type 0} → String → Option V → Dict V → Dict V
insert_if name none d = d
insert_if name (some v) d = insert name v d

-- bool(getattr(flags, flag_name, True))
abbrev or_true : Option Bool → Bool
or_true none = true
or_true (some b) = b

module _ {Tool Schema : Type 0} where
  abbrev pub empty_registry : ToolRegistry Tool Schema
  empty_registry = record { tools = []; flag_gates = []; llm_schemas = [] }

  unfoldable pub register :
      String
      → Tool
      → Option String
      → Option Schema
      → ToolRegistry Tool Schema
      → ToolRegistry Tool Schema
  unfolding insert
  register name fn flag_name llm_schema r = record {
    tools = insert name fn r.tools;
    flag_gates = insert_if name flag_name r.flag_gates;
    llm_schemas = insert_if name llm_schema r.llm_schemas;
  }

  -- _is_enabled
  unfoldable pub is_enabled : ToolRegistry Tool Schema → String → FeatureFlags → Bool
  unfolding lookup get_attr
  is_enabled r name flags = elim (lookup name r.flag_gates) [
    | none ↦ true
    | some flag_name ↦ or_true (get_attr flags flag_name)
  ]

  unfoldable pub get : ToolRegistry Tool Schema → String → FeatureFlags → Option Tool
  unfolding is_enabled
  get r name flags = elim (lookup name r.tools) [
    | none ↦ none
    | some fn ↦ if is_enabled r name flags then some fn else none
  ]

  unfoldable pub registered_tool_names : ToolRegistry Tool Schema → List String
  registered_tool_names r = map (λ e. e.0) r.tools

  unfoldable pub get_llm_tool_schema : ToolRegistry Tool Schema → FeatureFlags → List Schema
  unfolding is_enabled
  get_llm_tool_schema r flags = map (λ e. e.1) (keep (λ e. is_enabled r e.0 flags) r.llm_schemas)
