-- ===== src/Registry/Execution/Guarded.antt =====
-- What stands between a call and its tool.
use fakuicode.Prelude.{
  ◌≡◌, refl, Bool, true, false, Option, none, some, Text, if_ind, ◌⊎◌, inl, inr,
}
use fakuicode.Context.{ToolCall, ToolResult}
use fakuicode.Permissions.Models.{Decision, DecisionKind}
use fakuicode.Permissions.ManagerState.{PreparedToolCall}
use fakuicode.Registry.{
  ToolPreparation, ToolExecution, Failure, cancelled, output_not_stored, other, tool_error, Result,
  ok, err, Tool, ToolRegistry, has_name, lookup, is_visible,
}
use fakuicode.Registry.Execution.{
  Host, Outcome, returned, prepared_call, post, unprepared, failed, executed, run_tool, by_kind,
  decided, authorized, hooked, pre, after_prepare, dispatch, execute,
}

module _ {W : Type 0} (host : Host W) (call : ToolCall) (ro : Bool) (r : ToolRegistry W) where
  -- The call may reach the tool: it is registered and visible, and it is a system tool or the
  -- permission manager has allowed the very call that the tool has prepared.
  pub record IsAdmitted (tool : Tool W) (prepared : PreparedToolCall) : Type 0 where
    pub registered : lookup call.name r.tools ≡ some tool
    pub visible : is_visible r call.name ≡ true
    pub allowed :
        (has_name call.name r.system_names ≡ true)
        ⊎ ((w : W) × (d : Decision) × ((host.authorize prepared ro w).0 ≡ ok d)
            × (d.kind ≡ DecisionKind.allow))

  -- A predicate of the state that the host's own steps keep, and the tool's preparation where the
  -- tool is registered and visible, and its action where it is admitted.
  pub record Guards (P : W → Type 0) : Type 0 where
    pub prepares :
        (tool : Tool W) (w : W)
        → lookup call.name r.tools ≡ some tool
        → is_visible r call.name ≡ true
        → P w
        → P (tool.prepare call.arguments w).1
    pub authorizes :
        (prepared : PreparedToolCall) (w : W) → P w → P (host.authorize prepared ro w).1
    pub pre_hooks :
        (hook : PreparedToolCall → Bool → W → Option Text × W) (prepared : PreparedToolCall) (w : W)
        → host.pre_hook ≡ some hook
        → P w
        → P (hook prepared ro w).1
    pub post_hooks :
        (hook : PreparedToolCall → ToolResult → Text → Bool → W → W) (prepared : PreparedToolCall)
        (result : ToolResult) (outcome : Text) (w : W)
        → host.post_hook ≡ some hook
        → P w
        → P (hook prepared result outcome ro w)
    pub acts :
        (tool : Tool W) (p : ToolPreparation) (w : W)
        → IsAdmitted tool (prepared_call call tool.read_only p)
        → P w
        → P (tool.execute_prepared p.arguments w).1

  -- A result names the call that it answers.
  abbrev pub Names : Outcome → Type 0
  Names (returned f) = (f.call_id ≡ call.id) × (f.tool_name ≡ call.name)
  Names _ = Unit {0}

  module _ (P : W → Type 0) (guards : Guards P) where
    abbrev Kept : Outcome × W → Type 0
    Kept (o, w) = Names o × P w

    post-keeps :
        (hook : Option (PreparedToolCall → ToolResult → Text → Bool → W → W))
        (prepared : PreparedToolCall) (result : ToolResult) (outcome : Text) (w : W)
        → host.post_hook ≡ hook
        → P w
        → P (post host call ro hook prepared result outcome w)
    post-keeps none prepared result outcome w e h = h
    post-keeps (some hook) prepared result outcome w e h =
        guards.post_hooks hook prepared result outcome w e h

    unprepared-keeps : (f : Failure) (w : W) → P w → Kept (unprepared host call ro f w)
    unprepared-keeps cancelled w h = (tt, h)
    unprepared-keeps output_not_stored w h = (tt, h)
    unprepared-keeps (tool_error message) w h = ((refl, refl), h)
    unprepared-keeps other w h = ((refl, refl), h)

    failed-keeps :
        (prepared : PreparedToolCall) (f : Failure) (w : W)
        → P w
        → Kept (failed host call ro prepared f w)
    failed-keeps prepared cancelled w h = (tt, post-keeps host.post_hook prepared _ _ w refl h)
    failed-keeps prepared output_not_stored w h = (tt, h)
    failed-keeps prepared (tool_error message) w h =
        ((refl, refl), post-keeps host.post_hook prepared _ _ w refl h)
    failed-keeps prepared other w h =
        ((refl, refl), post-keeps host.post_hook prepared _ _ w refl h)

    executed-keeps :
        (prepared : PreparedToolCall) (t : Result ToolExecution × W)
        → P t.1
        → Kept (executed host call ro prepared t)
    executed-keeps prepared (err f, w) h = failed-keeps prepared f w h
    executed-keeps prepared (ok x, w) h =
        ((refl, refl), post-keeps host.post_hook prepared _ _ w refl h)

    module _ (tool : Tool W) (p : ToolPreparation)
        (registered : lookup call.name r.tools ≡ some tool)
        (visible : is_visible r call.name ≡ true) where
      run_tool-keeps :
          (w : W)
          → (has_name call.name r.system_names ≡ true)
            ⊎ ((v : W) × (d : Decision) × ((host.authorize
                    (prepared_call call tool.read_only p)
                    ro
                    v).0
                  ≡ ok d)
                × (d.kind ≡ DecisionKind.allow))
          → P w
          → Kept (run_tool host call ro tool (prepared_call call tool.read_only p) p.arguments w)
      unfolding run_tool
      run_tool-keeps w allowed h =
          executed-keeps (prepared_call call tool.read_only p) (tool.execute_prepared p.arguments w)
            (guards.acts tool p w
              (record { registered = registered; visible = visible; allowed = allowed }) h)

      decided-keeps :
          (v : W) (t : Result Decision × W)
          → (host.authorize (prepared_call call tool.read_only p) ro v).0 ≡ t.0
          → P t.1
          → Kept (decided host call ro tool (prepared_call call tool.read_only p) p.arguments t)
      decided-keeps v (err f, w) e h = failed-keeps _ f w h
      decided-keeps v (ok d, w) e h = by_kind-keeps d.kind refl
        where
          by_kind-keeps :
              (k : DecisionKind)
              → d.kind ≡ k
              → Kept (
                  by_kind host call ro tool k (prepared_call call tool.read_only p) p.arguments d w)
          by_kind-keeps DecisionKind.allow a = run_tool-keeps w (inr (v, d, e, a)) h
          by_kind-keeps DecisionKind.ask a =
              ((refl, refl), post-keeps host.post_hook _ _ _ w refl h)
          by_kind-keeps DecisionKind.deny a =
              ((refl, refl), post-keeps host.post_hook _ _ _ w refl h)

      authorized-keeps :
          (system_tool : Bool) (w : W)
          → has_name call.name r.system_names ≡ system_tool
          → P w
          → Kept (
              authorized host call ro tool system_tool
                (prepared_call call tool.read_only p)
                p.arguments
                w)
      unfolding authorized
      authorized-keeps true w e h = run_tool-keeps w (inl e) h
      authorized-keeps false w e h =
          let prepared = prepared_call call tool.read_only p in
          decided-keeps w (host.authorize prepared ro w) refl (guards.authorizes prepared w h)

      hooked-keeps :
          (t : Option Text × W)
          → P t.1
          → Kept (
              hooked host call ro tool
                (has_name call.name r.system_names)
                (prepared_call call tool.read_only p)
                p.arguments
                t)
      hooked-keeps (some reason, w) h = ((refl, refl), post-keeps host.post_hook _ _ _ w refl h)
      hooked-keeps (none, w) h = authorized-keeps (has_name call.name r.system_names) w refl h

      pre-keeps :
          (hook : Option (PreparedToolCall → Bool → W → Option Text × W)) (w : W)
          → host.pre_hook ≡ hook
          → P w
          → P (pre host call ro tool hook (prepared_call call tool.read_only p) w).1
      pre-keeps none w e h = h
      pre-keeps (some hook) w e h = guards.pre_hooks hook _ w e h

    after_prepare-keeps :
        (tool : Tool W) (t : Result ToolPreparation × W)
        → lookup call.name r.tools ≡ some tool
        → is_visible r call.name ≡ true
        → P t.1
        → Kept (after_prepare host call ro tool (has_name call.name r.system_names) t)
    after_prepare-keeps tool (err f, w) e v h = unprepared-keeps f w h
    after_prepare-keeps tool (ok p, w) e v h =
        hooked-keeps tool p e v
          (pre host call ro tool host.pre_hook (prepared_call call tool.read_only p) w)
          (pre-keeps tool p e v host.pre_hook w refl h)

    dispatch-keeps :
        (o : Option (Tool W)) (w : W)
        → lookup call.name r.tools ≡ o
        → P w
        → Kept
            (dispatch host call ro o (is_visible r call.name) (has_name call.name r.system_names) w)
    dispatch-keeps none w e h = ((refl, refl), h)
    dispatch-keeps (some tool) w e h =
        if_ind Kept (is_visible r call.name)
          (λ v.
            after_prepare-keeps tool (tool.prepare call.arguments w) e v
              (guards.prepares tool w e v h))
          (λ _. ((refl, refl), h))

    -- A tool prepares only a call to which it is visible, and acts only where it is admitted: a
    -- predicate of the state that these steps keep, and those of the host, is kept by the dispatch
    -- of any call. The result, if there is one, names the call.
    pub execute-keeps :
        (w : W) → P w → Names (execute host call ro r w).0 × P (execute host call ro r w).1
    unfolding execute
    execute-keeps w h = dispatch-keeps (lookup call.name r.tools) w refl h
