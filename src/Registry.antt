-- ===== src/Registry.antt =====
-- tools/registry.py: `ToolRegistry`. Its state here; the dispatch of a call is in Execution. The
-- artifact stores that tools are bound to are not modelled. The dict of tools is a list of pairs in
-- the order of insertion; sets of names are lists.
pub mod Execution
pub mod Consistent
pub mod Optional
pub mod Scope
mod Samples
use fakuicode.Prelude.{
  ℕ, Bool, true, false, not, ◌&&◌, ◌||◌, Option, none, some, List, [], ◌∷◌, ◌++◌, map, Text, codes,
  text_eq, any, filter, strip, is_empty, if◌then◌else◌,
}
use fakuicode.Agent.{ToolDefinition}
use fakuicode.Context.{ResultMetadata, ToolResult}
use fakuicode.Permissions.Models.{PermissionScope}

-- `ToolPreparation` of tools/base.py.
pub record ToolPreparation : Type 0 where
  pub arguments : Text
  pub target : Text
  pub permission_scope : PermissionScope
  pub permission_capability : Option Text

-- `ToolExecution` of tools/base.py.
pub record ToolExecution : Type 0 where
  pub success : Bool
  pub output : Text
  pub summary : Text
  pub duration_seconds : Option ℕ
  pub metadata : Option ResultMetadata

-- The exceptions that the dispatch tells apart: RequestCancelled, ToolOutputStorageError, the two
-- tool errors with their message, and any other.
pub data Failure : Type 0 where
  cancelled output_not_stored other : Failure
  tool_error : Text → Failure

pub data Result {ℓ} (A : Type ℓ) : Type ℓ where
  ok : A → Result A
  err : Failure → Result A

-- A tool acts on the state `W` of everything outside the registry.
pub record Tool (W : Type 0) : Type 0 where
  pub definition : ToolDefinition
  pub read_only : Bool
  pub prepare : Text → W → Result ToolPreparation × W
  pub execute_prepared : Text → W → Result ToolExecution × W

pub record ToolRegistry (W : Type 0) : Type 0 where
  pub tools : List (Text × Tool W)
  pub optional_names : List Text
  pub system_names : List Text
  pub visible_names : Option (List Text)
  pub include_system_tools : Bool
  pub tool_ceiling : Option (List Text)
  pub ceiling_includes_system_tools : Bool

-- `name in names`
abbrev pub has_name : Text → List Text → Bool
has_name name names = any (text_eq name) names

-- The set with a name more, and with a name less.
abbrev pub add_name : Text → List Text → List Text
add_name name names = if has_name name names then names else name ∷ names

abbrev pub discard_name : Text → List Text → List Text
discard_name name names = filter (λ n. not (text_eq name n)) names

-- The ValueErrors.
pub data RegistryError : Type 0 where
  already_registered system_tool not_optional name_mismatch : RegistryError

-- An operation that may raise leaves the registry as it was when it does.
abbrev pub Change : Type 0 → Type 0
Change W = ToolRegistry W × Option RegistryError

abbrev limited_by : Option (List Text) → Bool → Text → Bool → Bool
limited_by none includes_system name in_system = true
limited_by (some names) includes_system name in_system =
    has_name name names || includes_system && in_system

module _ {W : Type 0} where
  abbrev pub names_of : List (Text × Tool W) → List Text
  names_of tools = map (λ t. t.0) tools

  unfoldable pub lookup : Text → List (Text × Tool W) → Option (Tool W)
  lookup name [] = none
  lookup name ((key, tool) ∷ tools) = if text_eq name key then some tool else lookup name tools

  -- `self._tools[name] = tool`
  unfoldable pub put : Text → Tool W → List (Text × Tool W) → List (Text × Tool W)
  put name tool [] = (name, tool) ∷ []
  put name tool ((key, old) ∷ tools) =
      let rest = put name tool tools in
      if text_eq name key then (key, tool) ∷ tools else (key, old) ∷ rest

  -- `self._tools.pop(name, None)`
  unfoldable pub pop : Text → List (Text × Tool W) → List (Text × Tool W)
  pop name [] = []
  pop name ((key, tool) ∷ tools) =
      let rest = pop name tools in if text_eq name key then tools else (key, tool) ∷ rest

  abbrev pub empty_registry : ToolRegistry W
  empty_registry = record {
    tools = [];
    optional_names = [];
    system_names = [];
    visible_names = none;
    include_system_tools = true;
    tool_ceiling = none;
    ceiling_includes_system_tools = true;
  }

  unfoldable pub register : Tool W → ToolRegistry W → Change W
  unfolding any put
  register tool r =
      let name = tool.definition.name in
      if has_name name (names_of r.tools)
      then (r, some already_registered)
      else (record r { tools = put name tool r.tools }, none)

  -- `register_system` has two critical sections: `register`, and this one if that raised nothing.
  abbrev pub mark_system : Text → ToolRegistry W → ToolRegistry W
  mark_system name r = record r { system_names = add_name name r.system_names }

  unfoldable pub unregister : Text → ToolRegistry W → Change W
  unfolding any pop filter
  unregister name r = if has_name name r.system_names then (r, some system_tool) else (
    record r { tools = pop name r.tools; optional_names = discard_name name r.optional_names },
    none,
  )

  unfoldable pub set_visible_tools : Option (List Text) → Bool → ToolRegistry W → ToolRegistry W
  set_visible_tools names include_system_tools r = record r {
    visible_names = names;
    include_system_tools = include_system_tools;
  }

  unfoldable pub set_tool_ceiling : Option (List Text) → Bool → ToolRegistry W → ToolRegistry W
  set_tool_ceiling names include_system_tools r = record r {
    tool_ceiling = names;
    ceiling_includes_system_tools = include_system_tools;
  }

  abbrev replace_with : Text → Option (Tool W) → ToolRegistry W → Change W
  replace_with name none r = (
    record r { tools = pop name r.tools; optional_names = discard_name name r.optional_names },
    none,
  )
  replace_with name (some tool) r =
      if text_eq tool.definition.name name
      then (
        record r { tools = put name tool r.tools; optional_names = add_name name r.optional_names },
        none,
      )
      else (r, some name_mismatch)

  unfoldable pub replace_optional : Text → Option (Tool W) → ToolRegistry W → Change W
  unfolding any pop put filter text_eq
  replace_optional name tool r =
      if has_name name (names_of r.tools) && not (has_name name r.optional_names)
      then (r, some not_optional)
      else replace_with name tool r

  -- `_is_visible_locked`
  unfoldable pub is_visible : ToolRegistry W → Text → Bool
  unfolding any
  is_visible r name =
      let in_system = has_name name r.system_names in
      limited_by r.visible_names r.include_system_tools name in_system
      && limited_by r.tool_ceiling r.ceiling_includes_system_tools name in_system

  -- `is_known` and `is_read_only`
  unfoldable pub is_known : ToolRegistry W → Text → Bool
  unfolding any
  is_known r name = has_name name (names_of r.tools)

  abbrev read_only_of : Option (Tool W) → Bool
  read_only_of none = false
  read_only_of (some tool) = tool.read_only

  unfoldable pub is_read_only : ToolRegistry W → Text → Bool
  unfolding lookup
  is_read_only r name = read_only_of (lookup name r.tools)

-- `_reinforced_definition`
reinforced_definition : ToolDefinition → ToolDefinition
unfolding text_eq
reinforced_definition d =
    let rule =
      if text_eq d.name (codes "run_command")
      then codes " 仅在没有专用工具能够完成任务时使用本工具。"
      else codes " 适用时优先使用该专用工具；只有没有专用工具可完成任务时才使用 run_command。" in
    let more =
      if text_eq d.name (codes "write_file") || text_eq d.name (codes "edit_file")
      then codes " 修改已有文件前，必须先用 read_file 读取目标文件或足够的相关上下文。"
      else [] in
    record d { description = d.description ++ (rule ++ more) }

module _ {W : Type 0} where
  offered : ToolRegistry W → Bool → List (Text × Tool W) → List ToolDefinition
  unfolding is_visible reinforced_definition
  offered r read_only_only [] = []
  offered r read_only_only ((name, tool) ∷ tools) =
      let rest = offered r read_only_only tools in
      if is_visible r name && (not read_only_only || tool.read_only)
      then reinforced_definition tool.definition ∷ rest
      else rest

  -- What the model is told of.
  unfoldable pub definitions : ToolRegistry W → Bool → List ToolDefinition
  unfolding offered
  definitions r read_only_only = offered r read_only_only r.tools

-- `finish_turn_message`: what a result's metadata says.
abbrev marked : Option ResultMetadata → Option Text
marked none = none
marked (some m) = elim m.finish_agent_turn [
  | false ↦ none
  | true ↦ elim m.finish_agent_turn_message [
    | none ↦ none
    | some text ↦ if is_empty (strip text) then none else some (strip text)
  ]
]

-- The message of one result, if it may end the turn.
unfoldable pub finish_of : List Text → ToolResult → Option Text
unfolding any
finish_of system_names f =
    if not f.success || not (has_name f.tool_name system_names) then none else marked f.metadata

-- `"\n".join(messages)`, none when a result has no message.
abbrev join_line : Option Text → Option Text → Option Text
join_line (some t) (some rest) = some (t ++ 10 ∷ rest)
join_line _ _ = none

joined_messages : List Text → List ToolResult → Option Text
unfolding finish_of
joined_messages system_names [] = none
joined_messages system_names (f ∷ []) = finish_of system_names f
joined_messages system_names (f ∷ g ∷ results) =
    join_line (finish_of system_names f) (joined_messages system_names (g ∷ results))

unfoldable pub finish_turn_message : {W : Type 0} → ToolRegistry W → List ToolResult → Option Text
unfolding joined_messages
finish_turn_message r results = joined_messages r.system_names results
