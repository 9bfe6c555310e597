-- ===== src/Agent/Requests.antt =====
-- agent.py: the request of one round. `AgentRunner._request`, `_definitions`,
-- `_append_hook_prompts` and `_plan_instruction`, with the objects that they ask.
use fakuicode.Prelude.{
  ℕ, ◌-◌, ◌*◌, ◌/◌, Bool, true, false, not, ◌&&◌, ◌||◌, Option, none, some, List, [], ◌∷◌, ◌++◌,
  Text, codes, is_empty, is_some, ◌==◌, if◌then◌else◌,
}
use fakuicode.Context.{AgentMessage}
use fakuicode.Agent.{AgentMode, execute, plan, AgentRequest, ToolDefinition}

-- The memory of a snapshot is its rendered text.
pub record AgentTurnContext : Type 0 where
  pub memory_snapshot : Option Text
  pub first_request_reminder : Text

abbrev pub plan_mode_system_instruction : Text
plan_mode_system_instruction =
    codes
      "## 计划模式\n- 你现在处于只读计划模式，只能使用当前提供的只读工具检查工作区。\n- 先基于实际代码和配置确认现状，不要凭空设计。\n- 不得创建、编辑或删除文件，不得执行会改变工作区或外部状态的命令。\n- 输出一份按依赖顺序排列、可以直接执行和验证的计划，并指出关键文件与风险。\n- 计划完成后停止，等待用户通过 /do 显式执行。"

abbrev pub plan_mode_concise_reminder : Text
plan_mode_concise_reminder = codes "## 计划模式提醒\n保持只读：继续检查必要上下文，禁止修改；最终只返回可执行计划并等待 /do。"

-- `_plan_instruction`
unfoldable pub plan_instruction : AgentMode → ℕ → Text
plan_instruction execute round_number = []
plan_instruction plan round_number =
    if round_number == 1 || round_number - 3 * (round_number / 3) == 0
    then plan_mode_system_instruction
    else plan_mode_concise_reminder

-- `"\n\n".join(texts)`
unfoldable pub join_blocks : List Text → Text
join_blocks [] = []
join_blocks (t ∷ []) = t
join_blocks (t ∷ u ∷ ts) = t ++ (10 ∷ 10 ∷ join_blocks (u ∷ ts))

-- `item for item in items if item`
unfoldable pub non_empty : List Text → List Text
non_empty [] = []
non_empty ([] ∷ ts) = non_empty ts
non_empty ((c ∷ t) ∷ ts) = (c ∷ t) ∷ non_empty ts

-- `_append_hook_prompts`
unfoldable pub append_hook_prompts : AgentRequest → List Text → AgentRequest
unfolding join_blocks non_empty
append_hook_prompts request [] = request
append_hook_prompts request (p ∷ prompts) = record request {
  system_supplement = join_blocks (
      non_empty (
        request.system_supplement ∷ (codes "## 生命周期 Hook 注入\n" ++ join_blocks (p ∷ prompts)) ∷ []));
}

-- The arguments of `build_request_envelope` that differ from call to call.
pub record EnvelopeArguments : Type 0 where
  pub reminder : Text
  pub custom_instructions : Text
  pub skill_catalog : Text
  pub active_skills : List Text
  pub long_term_memory : Text
  pub automatic_memory_enabled : Bool

-- The hook engine's queues of prompts.
pub record HookPrompts (W : Type 0) : Type 0 where
  pub consume_prompts : W → List Text × W
  pub consume_pending_prompts : W → List Text × W

-- What a request is made from. `build_request_envelope` of prompting.py gives the stable prompt and
-- the supplement; the skill manager's texts are empty when there is none.
pub record RequestSource (W : Type 0) : Type 0 where
  pub request_template : Option AgentRequest
  pub definitions : Bool → W → List ToolDefinition
  pub hook_prompts : Option (HookPrompts W)
  pub catalog_text : W → Text
  pub active_prompt : W → Text
  pub custom_instructions : Text
  pub agent_system_prompt : Text
  pub supports_structured_requests : Bool
  pub build_request_envelope : EnvelopeArguments → Text × Text

abbrev text_or_empty : Option Text → Text
text_or_empty none = []
text_or_empty (some t) = t

module _ {W : Type 0} (source : RequestSource W) where
  abbrev prompts_of : Option (HookPrompts W) → W → List Text × W
  prompts_of none w = ([], w)
  prompts_of (some hooks) w = hooks.consume_prompts w

  abbrev plain_request : List AgentMessage → List ToolDefinition → AgentRequest
  plain_request history tools = record {
    messages = history;
    tools = tools;
    system_prompt = source.agent_system_prompt;
    system_supplement = [];
    output_token_limit = none;
  }

  -- Nothing but the messages and the tools goes into the request.
  is_plain : AgentTurnContext → Text → Text → Text → List Text → Bool
  is_plain context reminder catalog active [] =
      is_empty source.custom_instructions
      && is_empty (text_or_empty context.memory_snapshot)
      && not (is_some context.memory_snapshot)
      && is_empty reminder
      && is_empty catalog
      && is_empty active
      && not source.supports_structured_requests
  is_plain context reminder catalog active (p ∷ prompts) = false

  enveloped :
      List AgentMessage
      → List ToolDefinition
      → AgentMode
      → ℕ
      → AgentTurnContext
      → Text
      → Text
      → Text
      → List Text
      → AgentRequest
  unfolding plan_instruction join_blocks non_empty append_hook_prompts
  enveloped history tools mode round_number context reminder catalog active prompts =
      let (stable, supplement) = source.build_request_envelope (record {
        reminder = join_blocks (non_empty (plan_instruction mode round_number ∷ reminder ∷ []));
        custom_instructions = source.custom_instructions;
        skill_catalog = catalog;
        active_skills = active ∷ [];
        long_term_memory = text_or_empty context.memory_snapshot;
        automatic_memory_enabled = is_some context.memory_snapshot;
      }) in
      append_hook_prompts
        (record (plain_request history tools) {
          system_prompt = stable;
          system_supplement = supplement;
        })
        prompts

  abbrev composed :
      List AgentMessage
      → List ToolDefinition
      → AgentMode
      → ℕ
      → AgentTurnContext
      → Option AgentRequest
      → W
      → AgentRequest × W
  composed history tools mode round_number context (some template) w =
      (record template { messages = history; tools = tools }, w)
  composed history tools mode round_number context none w =
      let reminder = if round_number == 1 then context.first_request_reminder else [] in
      let catalog = source.catalog_text w in
      let active = source.active_prompt w in
      let (prompts, w') = prompts_of source.hook_prompts w in
      (
        elim (is_plain context reminder catalog active prompts) [
          | true ↦ plain_request history tools
          | false ↦
              enveloped history tools mode round_number context reminder catalog active prompts
        ],
        w',
      )

  -- `_request`, on the definitions of the tools that the mode allows.
  unfoldable pub request :
      List AgentMessage → AgentMode → ℕ → AgentTurnContext → W → AgentRequest × W
  unfolding is_plain enveloped
  request history execute round_number context w =
      composed history (source.definitions false w) execute round_number context
        source.request_template w
  request history plan round_number context w =
      composed history (source.definitions true w) plan round_number context source.request_template
        w
